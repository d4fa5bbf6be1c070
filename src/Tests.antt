-- ===== src/Tests.antt =====
-- Runs of the definitions and theorems on concrete data, one file for each part of the program.
mod Checksums
mod Frames
mod Datagrams
mod Messages
mod Scripts
mod Addresses
mod Instructions
mod Vectors
mod Routing

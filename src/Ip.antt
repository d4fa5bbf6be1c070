-- ===== src/Ip.antt =====
-- src/packets/ippacket.hpp and src/packets/ippacket.cpp: the IP layer.
pub mod Receiver
pub mod Header
pub mod Packet
pub mod Fragments
pub mod Update
pub mod Six

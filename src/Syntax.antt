-- ===== src/Syntax.antt =====
-- The names of the parameters, without PAR_ tables: src/compiler/syntax.hpp.
pub mod Link
pub mod Net

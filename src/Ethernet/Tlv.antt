-- ===== src/Ethernet/Tlv.antt =====
-- The elements that src/packets/lldppacket.hpp and src/packets/lldppacket.cpp make.
mod Elements
mod Sizes
mod Addresses
mod Pieces
pub use Elements.*
pub use Addresses.*
pub use Sizes.*
unfoldable pub use Pieces.*

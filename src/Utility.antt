-- ===== src/Utility.antt =====
-- libtactmon/utility: text and byte order of machine words.
pub mod Hex
pub mod Endian

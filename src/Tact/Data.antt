-- ===== src/Tact/Data.antt =====
-- libtactmon/tact/data: manifests and archive indices.
pub mod FileLocation
pub mod Encoding
pub mod Install
pub mod Index
pub mod Root
pub mod Product

-- ===== src/Tact.antt =====
-- libtactmon/tact: keys, configuration files, archives and the manifests in them.
pub mod Key
pub mod Config
pub mod Blte
pub mod Cache
pub mod Data

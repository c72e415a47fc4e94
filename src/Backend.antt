-- ===== src/Backend.antt =====
-- src/tactmon/backend: what the application keeps of products and of its database.
pub mod Monitor
pub mod Entities
pub mod Orm
pub mod Pool
pub mod Product
pub mod Repository
pub mod ProductCache

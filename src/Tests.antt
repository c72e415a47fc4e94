-- ===== src/Tests.antt =====
-- The theorems at concrete inputs, one file for each part of the program.
pub mod Streams
pub mod Texts
pub mod Keys
pub mod Configs
pub mod Downloads
pub mod Archives
pub mod Encodings
pub mod Indices
pub mod Installs
pub mod Roots
pub mod Statements
pub mod Backends
pub mod Sessions
pub mod Transforms
pub mod Listeners
pub mod Products
pub mod Repositories
pub mod Answers

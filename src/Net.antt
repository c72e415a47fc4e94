-- ===== src/Net.antt =====
-- src/tactmon/net: the server that unpacks files for its clients.
pub mod Address
pub mod Request
pub mod Transfer
pub mod Outgoing

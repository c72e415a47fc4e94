-- ===== src/Beast.antt =====
-- src/tactmon/beast: the body of an answer that is unpacked while it comes in.
pub mod Transform

-- ===== src/Ribbit.antt =====
-- libtactmon/ribbit: the requests of Blizzard's version service and the records that it answers with.
pub mod Records
pub mod Commands
pub mod Execute

-- ===== src/Io.antt =====
-- libtactmon/io: sequences of bytes with a read cursor and a write cursor.
pub mod Readable
pub mod Growable
pub mod Span
pub mod File
pub mod Writable

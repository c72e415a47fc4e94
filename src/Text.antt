-- ===== src/Text.antt =====
-- Walking over texts: the tokenizer of libtactmon, and the number parser that its callers use.
pub mod Tokenizer
pub mod Numbers

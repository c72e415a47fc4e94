-- ===== src/Io/File.antt =====
-- src/libtactmon/libtactmon/io/FileStream.hpp and FileStream.cpp: a file that is mapped to memory.
-- Boost's `mapped_file_source` is its bytes, or nothing where the file could not be opened.
pub mod Reads
use tactmon.Prelude.{
  ℕ, min, Bool, true, false, not, ◌&&◌, Option, none, some, [], ◌++◌, Bytes, ltb, leb, ◌==◌,
  if◌then◌else◌, length, take, drop, undefined, Result, ok, fault, add64, sub64,
}
use tactmon.Io.Readable.{ReadableStream}
use tactmon.Io.Growable.{subspan}

pub record FileStream : Type 0 where
  pub stream : Option Bytes
  pub cursor : ℕ

-- The bytes between `_stream.data()` and `_stream.data() + _stream.size()`.
abbrev pub mapped : Option Bytes → Bytes
mapped none = []
mapped (some bs) = bs

-- The constructor: what the file system holds at the path is given.
abbrev pub open_file : Option Bytes → FileStream
open_file found = record { stream = found; cursor = 0 }

abbrev pub is_some {ℓ} : {A : Type ℓ} → Option A → Bool
is_some none = false
is_some (some a) = true

unfoldable pub seek_read : FileStream → ℕ → FileStream
seek_read s offset = record s { cursor = offset }

unfoldable pub skip_read : FileStream → ℕ → FileStream
skip_read s offset = record s { cursor = add64 s.cursor offset }

unfoldable pub can_read : FileStream → ℕ → Bool
can_read s amount = leb (add64 s.cursor amount) (length (mapped s.stream))

-- `memcpy` from behind the end of the mapping is an access out of bounds, unless it copies nothing.
unfoldable pub read_impl : FileStream → Bytes → Result (Bytes × ℕ × FileStream)
read_impl s span =
    let bs = mapped s.stream in
    let n = min (length span) (sub64 (length bs) s.cursor) in
    if ltb (length bs) s.cursor && not (n == 0)
    then fault undefined
    else ok (take n (drop s.cursor bs) ++ drop n span, n, record s { cursor = add64 s.cursor n })

instance abbrev pub file_readable : ReadableStream FileStream
file_readable = record {
  get_length = λ s. length (mapped s.stream);
  is_open = λ s. is_some s.stream;
  get_read_cursor = λ s. s.cursor;
  seek_read = seek_read;
  skip_read = skip_read;
  can_read = can_read;
  data_span = λ s. subspan (mapped s.stream) s.cursor;
  read_impl = read_impl;
}

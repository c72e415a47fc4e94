-- ===== src/Io/Growable.antt =====
-- src/libtactmon/libtactmon/io/MemoryStream.hpp and MemoryStream.cpp: `GrowableMemoryStream`.
pub mod Reads
pub mod Writes
use tactmon.Prelude.{
  ℕ, ◌+◌, ◌-◌, min, Bool, true, List, [], ◌∷◌, ◌++◌, Bytes, ltb, leb, if◌then◌else◌, length, take,
  drop, zeros, undefined, Result, ok, fault, ◌>>=◌, add64, sub64,
}
use tactmon.Io.Readable.{ReadableStream}

pub record GrowableMemoryStream : Type 0 where
  pub bytes : Bytes
  pub read_cursor : ℕ
  pub write_cursor : ℕ

-- The constructors: empty, and from a span or a sequence of buffers.
abbrev pub empty_stream : GrowableMemoryStream
empty_stream = record { bytes = []; read_cursor = 0; write_cursor = 0 }

abbrev pub of_span : Bytes → GrowableMemoryStream
of_span bs = record { bytes = bs; read_cursor = 0; write_cursor = 0 }

-- `_data.insert` for each buffer in turn.
abbrev pub of_buffers : List Bytes → GrowableMemoryStream
of_buffers [] = empty_stream
of_buffers (b ∷ bs) = of_span (b ++ (of_buffers bs).bytes)

-- `subspan(offset)` of a span wants `offset` to be at most its size.
abbrev pub subspan : Bytes → ℕ → Result Bytes
subspan bs offset = if leb offset (length bs) then ok (drop offset bs) else fault undefined

-- `std::vector::resize`.
abbrev pub resize : ℕ → Bytes → Bytes
resize n bs = take n bs ++ zeros (n - length bs)

unfoldable pub seek_read : GrowableMemoryStream → ℕ → GrowableMemoryStream
seek_read s offset = record s { read_cursor = min offset (length s.bytes) }

unfoldable pub skip_read : GrowableMemoryStream → ℕ → GrowableMemoryStream
skip_read s offset = record s { read_cursor = add64 s.read_cursor offset }

unfoldable pub can_read : GrowableMemoryStream → ℕ → Bool
can_read s amount = leb (add64 s.read_cursor amount) (length s.bytes)

unfoldable pub read_impl : GrowableMemoryStream → Bytes → Result (Bytes × ℕ × GrowableMemoryStream)
read_impl s span =
    let n = min (length span) (sub64 (length s.bytes) s.read_cursor) in
    do
      source ← subspan s.bytes s.read_cursor
      ok (take n source ++ drop n span, n, record s { read_cursor = add64 s.read_cursor n })

instance abbrev pub growable_readable : ReadableStream GrowableMemoryStream
growable_readable = record {
  get_length = λ s. length s.bytes;
  is_open = λ s. true;
  get_read_cursor = λ s. s.read_cursor;
  seek_read = seek_read;
  skip_read = skip_read;
  can_read = can_read;
  data_span = λ s. subspan s.bytes s.read_cursor;
  read_impl = read_impl;
}

-- `SeekWrite` cuts the stream off at the cursor, or fills it with zeros up to it.
unfoldable pub seek_write : GrowableMemoryStream → ℕ → GrowableMemoryStream
seek_write s offset = record s { write_cursor = offset; bytes = resize offset s.bytes }

unfoldable pub skip_write : GrowableMemoryStream → ℕ → GrowableMemoryStream
skip_write s offset = record s { write_cursor = add64 s.write_cursor offset }

-- `_WriteImpl`: the span of the bytes written is returned by its offset in the data and its size.
unfoldable pub write_impl : GrowableMemoryStream → Bytes → (ℕ × ℕ) × GrowableMemoryStream
write_impl s value =
    let end = s.write_cursor + length value in
    let grown = if ltb (length s.bytes) end then resize end s.bytes else s.bytes in
    (
      (s.write_cursor, length value),
      record s {
        bytes = take s.write_cursor grown ++ (value ++ drop end grown);
        write_cursor = end;
      },
    )

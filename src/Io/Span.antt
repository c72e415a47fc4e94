-- ===== src/Io/Span.antt =====
-- src/libtactmon/libtactmon/io/MemoryStream.hpp and MemoryStream.cpp: `SpanStream`, `MemoryStream`.
pub mod Faults
use tactmon.Prelude.{
  ℕ, min, Bool, true, ◌++◌, Bytes, ltb, leb, if◌then◌else◌, length, take, drop, undefined, Result,
  ok, fault, ◌>>=◌, add64, sub64,
}
use tactmon.Io.Readable.{ReadableStream}
use tactmon.Io.Growable.{subspan}

pub record SpanStream : Type 0 where
  pub bytes : Bytes
  pub cursor : ℕ

-- The two classes differ in `_ReadImpl` only.
unfoldable pub seek_read : SpanStream → ℕ → SpanStream
seek_read s offset = record s { cursor = min offset (length s.bytes) }

unfoldable pub skip_read : SpanStream → ℕ → SpanStream
skip_read s offset = record s { cursor = add64 s.cursor offset }

unfoldable pub can_read : SpanStream → ℕ → Bool
can_read s amount = leb (add64 s.cursor amount) (length s.bytes)

-- `SpanStream::_ReadImpl`: the source is what stands `n` bytes behind the cursor.
unfoldable pub span_read_impl : SpanStream → Bytes → Result (Bytes × ℕ × SpanStream)
span_read_impl s span =
    let n = min (length span) (sub64 (length s.bytes) s.cursor) in
    do
      unread ← subspan s.bytes s.cursor
      source ← subspan unread n
      if ltb (length source) n
          then fault undefined
          else ok (take n source ++ drop n span, n, record s { cursor = add64 s.cursor n })

instance abbrev pub span_readable : ReadableStream SpanStream
span_readable = record {
  get_length = λ s. length s.bytes;
  is_open = λ s. true;
  get_read_cursor = λ s. s.cursor;
  seek_read = seek_read;
  skip_read = skip_read;
  can_read = can_read;
  data_span = λ s. subspan s.bytes s.cursor;
  read_impl = span_read_impl;
}

-- `MemoryStream::_ReadImpl` assigns to its own copy of the span, and so writes no byte of it.
unfoldable pub memory_read_impl : SpanStream → Bytes → Result (Bytes × ℕ × SpanStream)
memory_read_impl s span =
    let n = min (length span) (sub64 (length s.bytes) s.cursor) in
    ok (span, n, record s { cursor = add64 s.cursor n })

-- A wrapper tells `MemoryStream` from `SpanStream`; the fields are the same.
pub record MemoryStream : Type 0 where
  pub inner : SpanStream

unfoldable pub memory_read : MemoryStream → Bytes → Result (Bytes × ℕ × MemoryStream)
unfolding memory_read_impl
memory_read m span = do
  (span', n, s) ← memory_read_impl m.inner span
  ok (span', n, record { inner = s })

instance abbrev pub memory_readable : ReadableStream MemoryStream
memory_readable = record {
  get_length = λ m. length m.inner.bytes;
  is_open = λ m. true;
  get_read_cursor = λ m. m.inner.cursor;
  seek_read = λ m offset. record { inner = seek_read m.inner offset };
  skip_read = λ m offset. record { inner = skip_read m.inner offset };
  can_read = λ m amount. can_read m.inner amount;
  data_span = λ m. subspan m.inner.bytes m.inner.cursor;
  read_impl = memory_read;
}

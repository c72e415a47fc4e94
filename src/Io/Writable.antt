-- ===== src/Io/Writable.antt =====
-- src/libtactmon/libtactmon/io/IWritableStream.hpp: the write operations over `_WriteImpl`.
use tactmon.Prelude.{
  ℕ, ◌+◌, ◌++◌, Bytes, ◌==◌, if◌then◌else◌, length, take, drop, Result, ok, ◌>>=◌,
}
use tactmon.Utility.Endian.{Endian, little, is_native, to_bytes}
use tactmon.Io.Readable.{swap_elements}
use tactmon.Io.Growable.{GrowableMemoryStream, write_impl}

-- `_WriteSpan`: the bytes are written, and then swapped where they stand. An operation on a
-- `GrowableMemoryStream`, the one stream of the library that can be written.
unfoldable pub write_span :
    Endian → ℕ → Bytes → GrowableMemoryStream → Result (ℕ × GrowableMemoryStream)
unfolding is_native
write_span endianness size value s =
    let (written, s') = write_impl s value in
    let (offset, count) = written in
    if is_native endianness then ok (count, s') else (do
      swapped ← swap_elements count size count (take count (drop offset s'.bytes))
      ok (
        count,
        record s' { bytes = take offset s'.bytes ++ (swapped ++ drop (offset + count) s'.bytes) },
      ))

-- `Write` of an integral value of `size` bytes.
unfoldable pub write_value :
    ℕ → Endian → ℕ → GrowableMemoryStream → Result (ℕ × GrowableMemoryStream)
write_value size endianness v = write_span endianness size (to_bytes size v)

-- `Write` of a span: the element size that it hands on is that of `std::span` itself, 16 bytes.
unfoldable pub write_bytes :
    Endian → Bytes → GrowableMemoryStream → Result (ℕ × GrowableMemoryStream)
write_bytes endianness value = write_span endianness 16 value

unfoldable pub write_string : Bytes → GrowableMemoryStream → Result (ℕ × GrowableMemoryStream)
write_string = write_bytes little

unfoldable pub write_c_string : Bytes → GrowableMemoryStream → Result (ℕ × GrowableMemoryStream)
write_c_string value s = do
  (written, s') ← write_string value s
  let terminated = (do (more, s'') ← write_value 1 little 0 s'; ok (written + more, s''))
  if written == length value then terminated else ok (written, s')

-- ===== src/Tests/Streams.antt =====
-- The theorems of libtactmon/io and libtactmon/utility/Endian at concrete inputs.
use tactmon.Prelude.{◌≡◌, refl, [], ◌∷◌, arith, Bytes, zeros, ok}
use tactmon.Io.Growable.{GrowableMemoryStream, growable_readable, of_span}
use tactmon.Io.Growable.Reads.{At, of_span-At, growable-ReadsSequentially}
use tactmon.Io.Growable.Writes.{read_value-write_value}
use tactmon.Io.Readable.{read_value, read_c_string}
use tactmon.Io.Readable.CString.{read_c_string-text}
use tactmon.Io.Writable.{write_value}
use tactmon.Io.Span.{SpanStream, MemoryStream, span_read_impl}
use tactmon.Io.Span.Faults.{span_read_impl_skips}
use tactmon.Utility.Endian.{big}

-- A file of two bytes, and a span of four before whose first byte the cursor stands.
abbrev two_bytes : Bytes
two_bytes = b'a' ∷ b'b' ∷ []

abbrev four_bytes : SpanStream
four_bytes = record { bytes = b'a' ∷ b'b' ∷ b'c' ∷ b'd' ∷ []; cursor = 0 }

abbrev overwritten : GrowableMemoryStream
overwritten = record { bytes = b'x' ∷ b'b' ∷ []; read_cursor = 0; write_cursor = 1 }

abbrev no_bytes : GrowableMemoryStream
no_bytes = of_span []

read_value-write_value_example :
    (t u : GrowableMemoryStream) × (write_value 2 big 515 no_bytes ≡ ok (2, t))
    × (read_value 2 big t ≡ ok (515, u))
    × At u []
read_value-write_value_example =
    read_value-write_value no_bytes 2 515 big refl (of_span-At [] (omega arith)) (omega arith)
      (omega arith)

abbrev big_endian : GrowableMemoryStream
big_endian = of_span (2 ∷ 3 ∷ 9 ∷ [])

abbrev terminated : Bytes
terminated = b'a' ∷ b'b' ∷ 0 ∷ []

read_c_string-text_example :
    (s' : GrowableMemoryStream) × (read_c_string 3 (of_span terminated) ≡ ok (two_bytes, s'))
    × At s' []
read_c_string-text_example =
    read_c_string-text growable-ReadsSequentially two_bytes (of_span terminated) 3 [] (ground arith)
      (of_span-At terminated (omega arith)) (omega arith)

span_read_impl_skips_example :
    span_read_impl four_bytes (zeros 2) ≡ ok (b'c' ∷ b'd' ∷ [], 2, record four_bytes { cursor = 2 })
span_read_impl_skips_example =
    span_read_impl_skips four_bytes (zeros 2) (omega arith) (omega arith) (omega arith)

abbrev memory : MemoryStream
memory = record { inner = four_bytes }

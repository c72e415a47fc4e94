-- ===== src/Io/Growable/Writes.antt =====
-- What stands in a `GrowableMemoryStream` after a write, and what is read back.
use tactmon.Prelude.{
  ℕ, ◌+◌, ◌-◌, ◌^◌, ◌≤◌, ◌<◌, ◌≡◌, refl, sym, ap, ◌∙◌, [], ◌∷◌, ◌++◌, reverse, arith, Bytes, lt→ltb,
  le→ltb, length, take, drop, zeros, length-zeros, length-append, length-drop, length-reverse,
  take-append, drop-append, take_all, drop_all, ok,
}
use tactmon.Io.Growable.{GrowableMemoryStream, write_impl, skip_read, growable_readable}
use tactmon.Io.Growable.Reads.{At, growable-ReadsSequentially}
use tactmon.Io.Readable.{read_value}
use tactmon.Io.Readable.Laws.{size_limit}
use tactmon.Io.Readable.Values.{encode, length-encode, swap_whole, read_value-encode}
use tactmon.Io.Writable.{write_span, write_value, write_bytes}
use tactmon.Utility.Endian.{Endian, little, big, to_bytes}
use tactmon.Utility.Endian.Laws.{length-to_bytes}
use mathlib.Core.List.{append-nil}

-- The write cursor stands at the end, as it does in every stream that is only written to.
abbrev pub AtEnd : GrowableMemoryStream → Type 0
AtEnd s = s.write_cursor ≡ length s.bytes

-- The stream behind `_WriteImpl` at the end.
abbrev pub appended : GrowableMemoryStream → Bytes → GrowableMemoryStream
appended s value = record s {
  bytes = s.bytes ++ value;
  write_cursor = length s.bytes + length value;
}

pub appended-AtEnd : (s : GrowableMemoryStream) (value : Bytes) → AtEnd (appended s value)
appended-AtEnd s value = sym (length-append s.bytes value)

-- Within the data, `_WriteImpl` overwrites as many bytes as it is given, at the write cursor, and
-- leaves the others and the read cursor as they were.
pub write_impl_inside :
    (s : GrowableMemoryStream) (value : Bytes)
    → s.write_cursor + length value ≤ length s.bytes
    → write_impl s value ≡ (
      (s.write_cursor, length value),
      record s {
        bytes =
            take s.write_cursor s.bytes ++ (value ++ drop (s.write_cursor + length value) s.bytes);
        write_cursor = s.write_cursor + length value;
      },
    )
unfolding write_impl
write_impl_inside s value h = rw (le→ltb (length s.bytes) (s.write_cursor + length value) h)

write_impl_empty :
    (s : GrowableMemoryStream) → AtEnd s → write_impl s [] ≡ ((length s.bytes, 0), appended s [])
unfolding write_impl
write_impl_empty s e = rw (
  e,
  le→ltb (length s.bytes) (length s.bytes + 0) (omega arith),
  take_all (length s.bytes) s.bytes (omega arith),
  drop_all (length s.bytes + 0) s.bytes (omega arith),
)

-- At the end `_WriteImpl` appends.
pub write_impl_end :
    (s : GrowableMemoryStream) (value : Bytes)
    → AtEnd s
    → write_impl s value ≡ ((length s.bytes, length value), appended s value)
write_impl_end s [] e = write_impl_empty s e
write_impl_end s (b ∷ value) e =
    unfold write_impl in
    let end = length s.bytes + length (b ∷ value) in
    let pad = zeros (end - length s.bytes) in
    rw
      (
        e,
        lt→ltb (length s.bytes) end (omega arith),
        take_all end s.bytes (omega arith),
        take-append (length s.bytes) s.bytes pad refl,
        drop_all end (s.bytes ++ pad)
            (omega (arith, length-append s.bytes pad, length-zeros (end - length s.bytes))),
      )
      (rw (append-nil value))

-- `Write` of a word of `k` bytes at the end appends its bytes in the order asked for.
pub write_value-encode :
    (s : GrowableMemoryStream) (k v : ℕ) (e : Endian)
    → AtEnd s
    → write_value k e v s ≡ ok (k, appended s (encode e k v))
unfolding write_value write_span encode
write_value-encode s k v little h = rw (write_impl_end s (to_bytes k v) h, length-to_bytes k v)
write_value-encode s k v big h =
    let n = length s.bytes in
    let value = to_bytes k v in
    let d : drop n (s.bytes ++ value) ≡ value = drop-append n s.bytes value refl in
    let t : take n (s.bytes ++ value) ≡ s.bytes = take-append n s.bytes value refl in
    let whole : take k value ≡ value = take_all k value (omega (arith, length-to_bytes k v)) in
    let rest : drop (n + k) (s.bytes ++ value) ≡ [] =
      drop_all (n + k) (s.bytes ++ value)
        (omega (arith, length-append s.bytes value, length-to_bytes k v)) in
    rw (
      write_impl_end s value h,
      length-to_bytes k v,
      d,
      whole,
      swap_whole k value (length-to_bytes k v),
      t,
      rest,
      append-nil (reverse value),
      length-reverse value,
      length-to_bytes k v,
    )

-- `Write` of a span, in the native order, appends its bytes.
pub write_bytes-append :
    (s : GrowableMemoryStream) (value : Bytes)
    → AtEnd s
    → write_bytes little value s ≡ ok (length value, appended s value)
unfolding write_bytes write_span
write_bytes-append s value h = rw (write_impl_end s value h)

appended-At :
    (s : GrowableMemoryStream) (value : Bytes)
    → At s []
    → length s.bytes + length value < size_limit
    → At (appended s value) value
appended-At s value a fits =
    let c : s.read_cursor ≡ length s.bytes =
      omega (arith, a.inside, ap length (sym a.unread) ∙ length-drop s.read_cursor s.bytes) in
    record {
      inside = omega (arith, length-append s.bytes value, a.inside);
      fits = omega (arith, length-append s.bytes value);
      unread = rw c (drop-append (length s.bytes) s.bytes value refl);
    }

-- Where a stream is written at its end and all of it was read, a word of `k` bytes that is
-- written is read back in the same byte order, whichever it is, and nothing is left behind it.
pub read_value-write_value :
    (s : GrowableMemoryStream) (k v : ℕ) (e : Endian)
    → AtEnd s
    → At s []
    → v < 256 ^ k
    → length s.bytes + k < size_limit
    → (t u : GrowableMemoryStream) × (write_value k e v s ≡ ok (k, t))
      × (read_value k e t ≡ ok (v, u))
      × At u []
read_value-write_value s k v e h a small fits =
    let t = appended s (encode e k v) in
    let at = appended-At s (encode e k v) a (omega (arith, length-encode e k v)) in
    let at' : At t (encode e k v ++ []) = rw (append-nil (encode e k v)) at in
    let (r, b) = read_value-encode growable-ReadsSequentially t e k v [] at' small in
    (t, skip_read t k, write_value-encode s k v e h, r, b)

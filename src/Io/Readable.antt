-- ===== src/Io/Readable.antt =====
-- src/libtactmon/libtactmon/io/IStream.hpp and IReadableStream.hpp: the interface of a readable
-- stream, and the read operations that are written once over its virtual methods.
pub mod Laws
pub mod Values
pub mod CString
use tactmon.Prelude.{
  ℕ, zero, suc, ◌-◌, Bool, ◌||◌, [], ◌∷◌, ◌++◌, reverse, Bytes, ltb, ◌==◌, if◌then◌else◌, length,
  get_or, take, drop, zeros, undefined, hangs, Result, ok, fault, ◌>>=◌,
}
use tactmon.Utility.Endian.{Endian, little, big, is_native, of_bytes}

-- The virtual methods. `read_impl` takes what stands in the writable span; it gives what stands
-- there afterwards, and the number of bytes that it claims to have read.
pub record ReadableStream (S : Type 0) : Type 0 where
  pub get_length : S → ℕ
  pub is_open : S → Bool
  pub get_read_cursor : S → ℕ
  pub seek_read : S → ℕ → S
  pub skip_read : S → ℕ → S
  pub can_read : S → ℕ → Bool
  pub data_span : S → Result Bytes
  pub read_impl : S → Bytes → Result (Bytes × ℕ × S)

-- An operation on a stream gives a value and the stream behind it.
abbrev pub Read : Type 0 → Type 0 → Type 0
Read S A = S → Result (A × S)

abbrev pub returns : {S A : Type 0} → A → Read S A
returns a s = ok (a, s)

-- The loop of `_ReadSpan` that reverses each element of `size` bytes in the `count` bytes read.
-- `begin` is compared with `end` only: a count that is no multiple of the size steps over `end`,
-- and out of the span. Each round takes one byte at least, so `count` rounds are enough.
unfoldable pub swap_elements : ℕ → ℕ → ℕ → Bytes → Result Bytes
swap_elements fuel size zero span = ok span
swap_elements zero size (suc count) span = fault hangs
swap_elements (suc fuel) size (suc count) span =
    if ltb (suc count) size || ltb (length span) size then fault undefined else (do
      rest ← swap_elements fuel size (suc count - size) (drop size span)
      ok (reverse (take size span) ++ rest))

module _ {S : Type 0} ⦃r : ReadableStream S⦄ where
  -- `_ReadSpan` on the bytes of the span.
  unfoldable pub read_span : Endian → ℕ → Bytes → Read S (Bytes × ℕ)
  unfolding is_native
  read_span endianness size span s = do
    (span', count, s') ← r.read_impl s span
    swapped ← (if is_native endianness then ok span' else swap_elements count size count span')
    ok ((swapped, count), s')

  -- `Read<T>` for an integral `T` of `size` bytes: the value is 0 before it is read.
  unfoldable pub read_value : ℕ → Endian → Read S ℕ
  read_value size endianness s = do
    ((span, count), s') ← read_span endianness size (zeros size) s
    ok (of_bytes span, s')

  -- `Read` into a span, or a vector, of `n` bytes that are 0.
  unfoldable pub read_bytes : ℕ → Read S Bytes
  read_bytes n s = do ((span, count), s') ← read_span little 1 (zeros n) s; ok (span, s')

  -- `ReadString`: the text is resized to `length`, and its bytes are read in the native order.
  unfoldable pub read_string : Bytes → ℕ → Read S (Bytes × ℕ)
  read_string value n = read_span little 1 (take n value ++ zeros (n - length value))

  -- The loop of `ReadCString`. `elem` keeps its value over a read that gives no byte.
  unfoldable pub read_c_string_loop : ℕ → ℕ → Bytes → Read S Bytes
  read_c_string_loop zero elem value s = fault hangs
  read_c_string_loop (suc fuel) elem value s = do
    ((span, count), s') ← read_span little 1 (elem ∷ []) s
    let elem' = get_or span 0 0
    let more = read_c_string_loop fuel elem' (value ++ elem' ∷ []) s'
    if elem' == 0 then ok (value, s') else more

  -- `ReadCString` on an empty text.
  unfoldable pub read_c_string : ℕ → Read S Bytes
  read_c_string fuel = read_c_string_loop fuel 0 []

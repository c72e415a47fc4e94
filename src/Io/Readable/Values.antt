-- ===== src/Io/Readable/Values.antt =====
-- What `Read` gives on a stream that reads sequentially: on little endian and big endian values, on
-- values that the stream holds only a part of, and on spans of bytes.
use tactmon.Prelude.{
  ℕ, zero, suc, ◌-◌, ◌^◌, ◌≤◌, ◌<◌, min, ◌≡◌, refl, ap, ◌∙◌, false, ◌||◌, [], ◌∷◌, ◌++◌, reverse,
  arith, Bytes, ltb, lt→ltb, length, take, drop, zeros, length-zeros, length-append, length-take,
  length-reverse, take-append, drop-append, take_all, drop_all, undefined, ok, fault,
}
use tactmon.Io.Readable.{ReadableStream, swap_elements, read_span, read_value, read_bytes}
use tactmon.Io.Readable.Laws.{ReadsSequentially}
use tactmon.Utility.Endian.{to_bytes, Endian, little, big, of_bytes}
use tactmon.Utility.Endian.Laws.{length-to_bytes, of_bytes-to_bytes}
use mathlib.Core.List.{reverse-reverse, append-nil}

-- One element that was read whole is reversed.
swap_one :
    (n : ℕ) (span : Bytes)
    → length span ≡ suc n
    → swap_elements (suc n) (suc n) (suc n) span ≡ ok (reverse span)
unfolding swap_elements
swap_one n span e =
    let z : suc n - suc n ≡ 0 = omega arith in
    let f : (ltb (suc n) (suc n) || ltb (length span) (suc n)) ≡ false = ground arith in
    rw (f, z, take_all (suc n) span (omega arith), drop_all (suc n) span (omega arith))
      (ap ok (append-nil (reverse span)))

pub swap_whole :
    (n : ℕ) (span : Bytes) → length span ≡ n → swap_elements n n n span ≡ ok (reverse span)
swap_whole zero [] e = unfold swap_elements in refl
swap_whole zero (b ∷ span) e = absurd (omega arith)
swap_whole (suc n) span e = swap_one n span e

-- Elements of one byte stay as they are.
pub swap_bytes : (n : ℕ) (span : Bytes) → n ≤ length span → swap_elements n 1 n span ≡ ok span
unfolding swap_elements
swap_bytes zero span h = refl
swap_bytes (suc n) [] h = absurd (omega arith)
swap_bytes (suc n) (b ∷ span) h =
    let d : suc n - 1 ≡ n = omega arith in
    let f : (ltb (suc n) 1 || ltb (suc (length span)) 1) ≡ false = ground arith in
    rw (f, d, swap_bytes n span (omega arith))

-- One element of which a part was read is not.
swap_part : (n k : ℕ) (span : Bytes) → 0 < k → k < n → swap_elements k n k span ≡ fault undefined
unfolding swap_elements
swap_part n zero span h l = absurd (omega arith)
swap_part n (suc k) span h l = rw (lt→ltb (suc k) n l)

module _ {S : Type 0} ⦃r : ReadableStream S⦄ {At : S → Bytes → Type 0}
    (laws : ReadsSequentially S r At) where
  pub read_impl-zeros :
      (s : S) (bs : Bytes) (n : ℕ)
      → At s bs
      → n ≤ length bs
      → r.read_impl s (zeros n) ≡ ok (take n bs, n, r.skip_read s n)
  read_impl-zeros s bs n a h =
      let e : min (length (zeros n)) (length bs) ≡ n = omega (arith, length-zeros n) in
      let d : drop n (zeros n) ≡ [] = drop_all n (zeros n) (omega (arith, length-zeros n)) in
      rw (laws.read_impl_at s bs (zeros n) a, e, d)
        (ap (λ x. ok (x, n, r.skip_read s n)) (append-nil (take n bs)))

  -- Fewer bytes than asked for: the rest of the buffer keeps its zeros.
  read_impl-zeros_short :
      (s : S) (bs : Bytes) (n : ℕ)
      → At s bs
      → length bs ≤ n
      → r.read_impl s (zeros n)
        ≡ ok (bs ++ drop (length bs) (zeros n), length bs, r.skip_read s (length bs))
  read_impl-zeros_short s bs n a h =
      let e : min (length (zeros n)) (length bs) ≡ length bs = omega (arith, length-zeros n) in
      rw (laws.read_impl_at s bs (zeros n) a, e, take_all (length bs) bs (omega arith))

  -- `n` bytes are read whole, and the cursor moves by `n`.
  pub read_bytes-At :
      (s : S) (bs : Bytes) (n : ℕ)
      → At s bs
      → n ≤ length bs
      → read_bytes n s ≡ ok (take n bs, r.skip_read s n)
  unfolding read_bytes read_span
  read_bytes-At s bs n a h = rw (read_impl-zeros s bs n a h)

  pub read_value-little-At :
      (s : S) (bs : Bytes) (n : ℕ)
      → At s bs
      → n ≤ length bs
      → read_value n little s ≡ ok (of_bytes (take n bs), r.skip_read s n)
  unfolding read_value read_span
  read_value-little-At s bs n a h = rw (read_impl-zeros s bs n a h)

  pub read_value-big-At :
      (s : S) (bs : Bytes) (n : ℕ)
      → At s bs
      → n ≤ length bs
      → read_value n big s ≡ ok (of_bytes (reverse (take n bs)), r.skip_read s n)
  unfolding read_value read_span
  read_value-big-At s bs zero a h = rw (read_impl-zeros s bs 0 a h) (unfold swap_elements in refl)
  read_value-big-At s bs (suc n) a h = rw (
    read_impl-zeros s bs (suc n) a h,
    swap_one n (take (suc n) bs) (omega (arith, length-take (suc n) bs)),
  )

  -- A big endian value that the stream ends inside of: the reversal leaves the buffer.
  pub read_value-big_short :
      (s : S) (bs : Bytes) (n : ℕ)
      → At s bs
      → 0 < length bs
      → length bs < n
      → read_value n big s ≡ fault undefined
  unfolding read_value read_span
  read_value-big_short s bs n a p h =
      rw (read_impl-zeros_short s bs n a (omega arith), swap_part n (length bs) _ p h)

  -- At the end of the stream every value reads as 0, and nothing tells that it was not there.
  pub read_value_end :
      (s : S) (n : ℕ) (e : Endian)
      → At s []
      → read_value n e s ≡ ok (of_bytes (zeros n), r.skip_read s 0)
  unfolding read_value read_span
  read_value_end s n little a = rw (read_impl-zeros_short s [] n a (omega arith))
  read_value_end s n big a =
      rw (read_impl-zeros_short s [] n a (omega arith)) (unfold swap_elements in refl)

-- The bytes of a word in either order.
unfoldable pub encode : Endian → ℕ → ℕ → Bytes
encode little k v = to_bytes k v
encode big k v = reverse (to_bytes k v)

pub length-encode : (e : Endian) (k v : ℕ) → length (encode e k v) ≡ k
unfolding encode
length-encode little k v = length-to_bytes k v
length-encode big k v = length-reverse (to_bytes k v) ∙ length-to_bytes k v

module _ {S : Type 0} ⦃r : ReadableStream S⦄ {At : S → Bytes → Type 0}
    (laws : ReadsSequentially S r At) where
  -- In front of the bytes of a word in some byte order, `Read` with that order gives the word and
  -- stands behind it, for every stream that reads its bytes in sequence.
  pub read_value-encode :
      (s : S) (e : Endian) (k v : ℕ) (rest : Bytes)
      → At s (encode e k v ++ rest)
      → v < 256 ^ k
      → (read_value k e s ≡ ok (v, r.skip_read s k)) × At (r.skip_read s k) rest
  unfolding encode
  read_value-encode s little k v rest a h =
      let n = length-to_bytes k v in
      let fits : k ≤ length (to_bytes k v ++ rest) =
        omega (arith, n, length-append (to_bytes k v) rest) in
      (
        read_value-little-At laws s _ k a fits
            ∙ rw (take-append k (to_bytes k v) rest n, of_bytes-to_bytes k v h),
        rw (drop-append k (to_bytes k v) rest n) at (laws.skip_read_at s _ k a fits),
      )
  read_value-encode s big k v rest a h =
      let n = length-encode big k v in
      let fits : k ≤ length (reverse (to_bytes k v) ++ rest) =
        omega (arith, n, length-append (reverse (to_bytes k v)) rest) in
      (
        read_value-big-At laws s _ k a fits
            ∙ rw (
              take-append k (reverse (to_bytes k v)) rest n,
              reverse-reverse (to_bytes k v),
              of_bytes-to_bytes k v h,
            ),
        rw (drop-append k (reverse (to_bytes k v)) rest n) at (laws.skip_read_at s _ k a fits),
      )

  -- `Read` of a span gives the bytes themselves, and stands behind them.
  pub read_bytes-append :
      (s : S) (xs rest : Bytes)
      → At s (xs ++ rest)
      → (read_bytes (length xs) s ≡ ok (xs, r.skip_read s (length xs)))
        × At (r.skip_read s (length xs)) rest
  read_bytes-append s xs rest a =
      let fits : length xs ≤ length (xs ++ rest) = omega (arith, length-append xs rest) in
      (
        read_bytes-At laws s _ (length xs) a fits ∙ rw (take-append (length xs) xs rest refl),
        rw (drop-append (length xs) xs rest refl) at (laws.skip_read_at s _ (length xs) a fits),
      )

-- ===== src/Tact/Key/Laws.antt =====
-- Keys and their hexadecimal text.
use tactmon.Prelude.{
  ℕ, ◌+◌, ◌*◌, ◌/◌, ◌≡◌, refl, sym, ap, ◌∙◌, ◌↔◌, inl, inr, true, [], ◌∷◌, arith, Bytes, AreBytes,
  ◌==◌, Bool-cases, length, zeros, length-zeros, equal, equal_iff, take_all, undefined, ok, fault,
  ◌>>=◌,
}
use tactmon.Utility.Hex.{hex, unhex}
use tactmon.Utility.Hex.RoundTrip.{unhex-hex, hex-unhex, unhex_odd, unhex_returns, LowerDigits}
use tactmon.Tact.Key.{
  Key, key_of, copy_key, move_key, to_string, try_parse, key_equal, key_equal_range,
}

length-hex : (bs : Bytes) → length (hex bs) ≡ 2 * length bs
unfolding hex
length-hex [] = refl
length-hex (b ∷ bs) = omega (arith, length-hex bs)

-- For a key of bytes, `TryParse` on what `ToString` wrote returns true and gives the key.
pub try_parse-to_string : (k : Key) → AreBytes k.bytes → try_parse (to_string k) ≡ ok (true, k)
unfolding try_parse to_string
try_parse-to_string k h =
    let n : length (hex k.bytes) / 2 ≡ length k.bytes = omega (arith, length-hex k.bytes) in
    rw (n, unhex-hex k.bytes (zeros (length k.bytes)) h (length-zeros (length k.bytes)))

try_parse-unhex :
    (s : Bytes) (n : ℕ)
    → length s / 2 ≡ n
    → try_parse s ≡ (do bs ← unhex s (zeros n); ok (true, key_of bs))
unfolding try_parse
try_parse-unhex s n e = rw e

-- On a text of lower case digits of even length, `TryParse` returns true, the key has half the
-- length, and `ToString` of the key is the text.
pub to_string-try_parse :
    (s : Bytes) (n : ℕ)
    → LowerDigits s
    → length s ≡ 2 * n
    → (k : Key) × (try_parse s ≡ ok (true, k)) × (to_string k ≡ s) × (length k.bytes ≡ n)
unfolding to_string
to_string-try_parse s n h e =
    let (bs, r, x, b) = hex-unhex s (zeros n) h (omega (arith, length-zeros n)) in
    (
      key_of bs,
      try_parse-unhex s n (omega arith) ∙ ap (λ m. do bs ← m; ok (true, key_of bs)) r,
      x,
      omega (arith, length-hex bs, ap length x),
    )

-- On every text of even length, whatever its characters, `TryParse` returns true and gives a key
-- of half the length.
pub try_parse_even :
    (s : Bytes) (n : ℕ)
    → length s ≡ 2 * n
    → (k : Key) × (try_parse s ≡ ok (true, k)) × (length k.bytes ≡ n)
try_parse_even s n e =
    let (bs, r, l) = unhex_returns s (zeros n) n e (omega (arith, length-zeros n)) in
    (
      key_of bs,
      try_parse-unhex s n (omega arith) ∙ ap (λ m. do bs ← m; ok (true, key_of bs)) r,
      l ∙ length-zeros n,
    )

-- On a text of odd length `TryParse` reads behind the end of the text.
pub try_parse_odd : (s : Bytes) (n : ℕ) → length s ≡ 2 * n + 1 → try_parse s ≡ fault undefined
unfolding try_parse
try_parse_odd s n e = rw (unhex_odd s (zeros (length s / 2)) n e)

key_eq : (a b : Key) → a.bytes ≡ b.bytes → a ≡ b
key_eq a b e = λ i. record { bytes = e i }

key_equal-equal : (a b : Key) → key_equal a b ≡ equal a.bytes b.bytes
unfolding key_equal
key_equal-equal a b = elim (Bool-cases (length a.bytes == length b.bytes)) [
  | inl same ↦ rw same
  | inr different ↦ rw different (elim (Bool-cases (equal a.bytes b.bytes)) [
    | inl eq ↦ absurd (ground (arith, ap length ((equal_iff a.bytes b.bytes).0 eq)))
    | inr ne ↦ sym ne
  ])
]

-- The comparison of keys decides their equality, and agrees with the comparison with a range. A
-- copy is equal to the key; a move gives the key, and leaves an empty one.
pub key_equal_iff :
    (a b : Key)
    → ((key_equal a b ≡ true) ↔ (a ≡ b))
      × (key_equal a b ≡ key_equal_range a b.bytes)
      × (copy_key a ≡ a)
      × (move_key a ≡ (a, key_of []))
unfolding key_equal_range copy_key move_key
key_equal_iff a b = (
  (
    (λ h. key_eq a b ((equal_iff a.bytes b.bytes).0 (sym (key_equal-equal a b) ∙ h))),
    (λ e. key_equal-equal a b ∙ (equal_iff a.bytes b.bytes).1 (ap (λ k. k.bytes) e)),
  ),
  key_equal-equal a b,
  key_eq _ _ (take_all (length a.bytes) a.bytes (omega arith)),
  refl,
)

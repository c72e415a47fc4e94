-- ===== src/Utility/Hex/RoundTrip.antt =====
-- `unhex` after `hex`, `hex` after `unhex`, and what `unhex` needs of its arguments.
use tactmon.Prelude.{
  ℕ, zero, suc, ◌+◌, ◌-◌, ◌*◌, ◌/◌, ◌%◌, ◌^◌, ◌≤◌, ◌<◌, bit_and, bit_or, ◌≡◌, refl, ap, ◌∙◌, Bool,
  true, false, not, ◌&&◌, ◌||◌, [], ◌∷◌, arith, Bytes, AreBytes, ltb, leb, ◌==◌, ==_iff, length,
  get_or, All, undefined, ok, fault,
}
use tactmon.Utility.Hex.{hex, unhex, join, lookup, alphabet}

-- A test that every number below a bound passes.
passed_by_all : (ℕ → Bool) → ℕ → Bool
passed_by_all test zero = true
passed_by_all test (suc bound) = passed_by_all test bound && test bound

passed_by_one :
    (test : ℕ → Bool) (bound c : ℕ) → c < bound → passed_by_all test bound ≡ true → test c ≡ true
unfolding passed_by_all
passed_by_one test zero c below all = absurd (omega (arith, below))
passed_by_one test (suc bound) c below all = ground (arith, passed_by_one test bound c, below, all)

abbrev same : Bytes → Bytes → Bool
same [] [] = true
same (x ∷ xs) (y ∷ ys) = (x == y) && same xs ys
same _ _ = false

same→eq : (xs ys : Bytes) → same xs ys ≡ true → xs ≡ ys
same→eq [] [] h = refl
same→eq [] (y ∷ ys) h = cc
same→eq (x ∷ xs) [] h = cc
same→eq (x ∷ xs) (y ∷ ys) h = ground (arith, same→eq xs ys)

-- `0`-`9` and `a`-`f`: what `hex` writes.
unfoldable pub is_lower_digit : ℕ → Bool
is_lower_digit c = (leb b'0' c && leb c b'9') || (leb b'a' c && leb c b'f')

abbrev pub LowerDigits : Bytes → Type 0
LowerDigits = All (λ c. is_lower_digit c ≡ true)

-- Tables over one byte.
nibble_and_table : passed_by_all (λ b. bit_and b 0xf == b % 16) 256 ≡ true
unfolding passed_by_all
nibble_and_table = refl

nibble_or_table : passed_by_all (λ b. bit_or (b % 16) (b / 16 * 2 ^ 4) % 2 ^ 8 == b) 256 ≡ true
unfolding passed_by_all
nibble_or_table = refl

alphabet_table :
    passed_by_all
      (λ n. (lookup (get_or alphabet n 0) == n) && is_lower_digit (get_or alphabet n 0))
      16
    ≡ true
unfolding passed_by_all lookup is_lower_digit
alphabet_table = refl

digit_table :
    passed_by_all
      (λ c. not (is_lower_digit c) || (ltb (lookup c) 16 && (get_or alphabet (lookup c) 0 == c)))
      256
    ≡ true
unfolding passed_by_all lookup is_lower_digit
digit_table = refl

nibble_and : (b : ℕ) → b < 256 → bit_and b 0xf ≡ b % 16
nibble_and b h = (==_iff _ _).0 (passed_by_one _ 256 b h nibble_and_table)

nibble_or : (hi lo : ℕ) → hi < 16 → lo < 16 → bit_or lo (hi * 2 ^ 4) % 2 ^ 8 ≡ hi * 16 + lo
nibble_or hi lo h k =
    let n = hi * 16 + lo in
    let e : n % 16 ≡ lo = omega arith in
    let d : n / 16 ≡ hi = omega arith in
    let t : bit_or (n % 16) (n / 16 * 2 ^ 4) % 2 ^ 8 ≡ n =
      (==_iff _ _).0 (passed_by_one _ 256 n (omega arith) nibble_or_table) in
    rw (e, d) at t

lookup-alphabet : (n : ℕ) → n < 16 → lookup (get_or alphabet n 0) ≡ n
lookup-alphabet n h = ground (arith, passed_by_one _ 16 n h alphabet_table)

alphabet-is_lower_digit : (n : ℕ) → n < 16 → is_lower_digit (get_or alphabet n 0) ≡ true
alphabet-is_lower_digit n h = ground (arith, passed_by_one _ 16 n h alphabet_table)

is_lower_digit-lt : (c : ℕ) → is_lower_digit c ≡ true → c < 256
unfolding is_lower_digit
is_lower_digit-lt c h = ground arith

lookup-lt : (c : ℕ) → is_lower_digit c ≡ true → lookup c < 16
lookup-lt c h = ground (arith, passed_by_one _ 256 c (is_lower_digit-lt c h) digit_table)

alphabet-lookup : (c : ℕ) → is_lower_digit c ≡ true → get_or alphabet (lookup c) 0 ≡ c
alphabet-lookup c h = ground (arith, passed_by_one _ 256 c (is_lower_digit-lt c h) digit_table)

join-alphabet :
    (b : ℕ) → b < 256 → join (get_or alphabet (b / 2 ^ 4) 0) (get_or alphabet (bit_and b 0xf) 0) ≡ b
unfolding join
join-alphabet b h =
    rw
      (
        nibble_and b h,
        lookup-alphabet (b / 16) (omega arith),
        lookup-alphabet (b % 16) (omega arith),
      )
      (nibble_or (b / 16) (b % 16) (omega arith) (omega arith) ∙ omega arith)

join_lem :
    (hi lo : ℕ)
    → is_lower_digit hi ≡ true
    → is_lower_digit lo ≡ true
    → (join hi lo < 256) × (join hi lo / 16 ≡ lookup hi) × (join hi lo % 16 ≡ lookup lo)
unfolding join
join_lem hi lo h k =
    rw (nibble_or (lookup hi) (lookup lo) (lookup-lt hi h) (lookup-lt lo k))
      (omega (arith, lookup-lt hi h, lookup-lt lo k))

-- `unhex` reads back the bytes that `hex` wrote, into a target of their number.
pub unhex-hex :
    (bs target : Bytes) → AreBytes bs → length target ≡ length bs → unhex (hex bs) target ≡ ok bs
unfolding unhex hex
unhex-hex [] [] h e = refl
unhex-hex [] (t ∷ ts) h e = absurd (omega arith)
unhex-hex (b ∷ bs) [] h e = absurd (omega arith)
unhex-hex (b ∷ bs) (t ∷ ts) h e =
    rw (unhex-hex bs ts h.1 (omega arith)) (ap (λ x. ok (x ∷ bs)) (join-alphabet b h.0))

-- `hex` writes back a text of lower case digits that `unhex` has read.
pub hex-unhex :
    (s target : Bytes)
    → LowerDigits s
    → length s ≡ 2 * length target
    → (bs : Bytes) × (unhex s target ≡ ok bs) × (hex bs ≡ s) × AreBytes bs
unfolding unhex hex
hex-unhex [] [] h e = ([], refl, refl, tt)
hex-unhex [] (t ∷ ts) h e = absurd (omega arith)
hex-unhex (c ∷ []) target h e = absurd (omega arith)
hex-unhex (hi ∷ lo ∷ s) [] h e = absurd (omega arith)
hex-unhex (hi ∷ lo ∷ s) (t ∷ ts) (h, (k, hs)) e =
    let (bs, r, x, bytes) = hex-unhex s ts hs (omega arith) in
    let (lt, d, m) = join_lem hi lo h k in
    (
      join hi lo ∷ bs,
      rw r,
      rw (nibble_and (join hi lo) lt, d, m, alphabet-lookup hi h, alphabet-lookup lo k, x),
      (lt, bytes),
    )

-- `unhex` returns exactly on texts of even length that the target has room for.
pub unhex_returns :
    (s target : Bytes) (n : ℕ)
    → length s ≡ 2 * n
    → n ≤ length target
    → (bs : Bytes) × (unhex s target ≡ ok bs) × (length bs ≡ length target)
unfolding unhex
unhex_returns [] target n e h = (target, refl, refl)
unhex_returns (c ∷ []) target n e h = absurd (omega arith)
unhex_returns (hi ∷ lo ∷ s) [] n e h = absurd (omega arith)
unhex_returns (hi ∷ lo ∷ s) (t ∷ ts) n e h =
    let (bs, r, l) = unhex_returns s ts (n - 1) (omega arith) (omega arith) in
    (join hi lo ∷ bs, rw r, omega arith)

-- On a text of odd length it reads behind the end, whatever the characters and the target.
pub unhex_odd : (s target : Bytes) (n : ℕ) → length s ≡ 2 * n + 1 → unhex s target ≡ fault undefined
unfolding unhex
unhex_odd [] target n e = absurd (omega arith)
unhex_odd (c ∷ []) target n e = refl
unhex_odd (hi ∷ lo ∷ s) [] n e = refl
unhex_odd (hi ∷ lo ∷ s) (t ∷ ts) n e = rw (unhex_odd s ts (n - 1) (omega arith))

-- Upper case digits and lower case digits read alike; what is no digit reads as 0.
unfoldable pub is_digit : ℕ → Bool
unfolding is_lower_digit
is_digit c = is_lower_digit c || (leb b'A' c && leb c b'F')

other_table : passed_by_all (λ c. is_digit c || (lookup c == 0)) 256 ≡ true
unfolding passed_by_all lookup is_digit
other_table = refl

case_table :
    passed_by_all (λ c. not (leb b'A' c && leb c b'F') || (lookup c == lookup (c + 32))) 256 ≡ true
unfolding passed_by_all lookup
case_table = refl

pub lookup_other : (c : ℕ) → c < 256 → is_digit c ≡ false → lookup c ≡ 0
lookup_other c h k = ground (arith, passed_by_one _ 256 c h other_table)

pub lookup_case : (c : ℕ) → b'A' ≤ c → c ≤ b'F' → lookup c ≡ lookup (c + 32)
lookup_case c h k = ground (arith, passed_by_one _ 256 c (omega arith) case_table)

-- What `hex` writes of bytes is lower case digits.
pub hex-LowerDigits : (bs : Bytes) → AreBytes bs → LowerDigits (hex bs)
unfolding hex
hex-LowerDigits [] h = tt
hex-LowerDigits (b ∷ bs) (h, hs) = (
  alphabet-is_lower_digit (b / 16) (omega arith),
  (
    ap (λ n. is_lower_digit (get_or alphabet n 0)) (nibble_and b h)
        ∙ alphabet-is_lower_digit (b % 16) (omega arith),
    hex-LowerDigits bs hs,
  ),
)

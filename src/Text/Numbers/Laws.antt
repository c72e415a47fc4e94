-- ===== src/Text/Numbers/Laws.antt =====
-- `from_chars` reads a number that is written in decimal digits, whatever follows it.
use tactmon.Prelude.{
  ℕ, ◌+◌, ◌-◌, ◌<◌, ◌≡◌, refl, true, false, ◌&&◌, none, some, List, [], ◌∷◌, ◌++◌, arith, Bytes,
  ltb, leb, if◌then◌else◌, All,
}
use tactmon.Text.Numbers.{digits_of, value_of, from_chars}

-- Digits, as the characters that stand for them.
abbrev pub AreDigits : List ℕ → Type 0
AreDigits = All (λ d. d < 10)

abbrev pub written : List ℕ → Bytes
written [] = []
written (d ∷ ds) = (b'0' + d) ∷ written ds

abbrev pub NoDigitAhead : Bytes → Type 0
NoDigitAhead [] = Unit {0}
NoDigitAhead (c ∷ cs) = (leb b'0' c && leb c b'9') ≡ false

digits_of-written :
    (ds : List ℕ) (rest : Bytes)
    → AreDigits ds
    → NoDigitAhead rest
    → digits_of (written ds ++ rest) ≡ ds
unfolding digits_of
digits_of-written [] [] h n = refl
digits_of-written [] (c ∷ cs) h n = rw n
digits_of-written (d ∷ ds) rest (h, hs) n =
    let e : (leb b'0' (b'0' + d) && leb (b'0' + d) b'9') ≡ true = ground arith in
    let m : b'0' + d - b'0' ≡ d = omega arith in rw (e, m, digits_of-written ds rest hs n)

-- A number in decimal digits is read where it fits the type, and refused where it does not.
pub from_chars-written :
    (d : ℕ) (ds : List ℕ) (rest : Bytes) (modulus : ℕ)
    → AreDigits (d ∷ ds)
    → NoDigitAhead rest
    → from_chars modulus (written (d ∷ ds) ++ rest)
      ≡ (if ltb (value_of 0 (d ∷ ds)) modulus then some (value_of 0 (d ∷ ds)) else none)
unfolding from_chars
from_chars-written d ds rest modulus h n = rw (digits_of-written (d ∷ ds) rest h n)

-- Whatever text is read, the result is below the modulus of the type.
pub from_chars-lt : (text : Bytes) (modulus v : ℕ) → from_chars modulus text ≡ some v → v < modulus
unfolding from_chars
from_chars-lt text modulus v h = ground arith

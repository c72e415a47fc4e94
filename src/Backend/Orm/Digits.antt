-- ===== src/Backend/Orm/Digits.antt =====
-- src/tactmon/backend/db/orm/Shared.hpp: `Explode` and `ToChars`, the digits of a number.
use tactmon.Prelude.{
  ℕ, zero, suc, ◌+◌, ◌*◌, ◌/◌, ◌%◌, ◌≤◌, ◌<◌, ◌≡◌, refl, sym, ap, ◌∙◌, inl, inr, some, List, [],
  ◌∷◌, ◌++◌, map, arith, Bytes, ◌==◌, if◌then◌else◌, lt→ltb, ==_iff, Bool-cases,
}
use mathlib.Core.List.{append_assoc}
use tactmon.Text.Numbers.{from_chars, value_of}
use tactmon.Text.Numbers.Laws.{written, AreDigits, NoDigitAhead, from_chars-written}

-- `Explode<Remainder, Digits...>`: the recursion ends at a remainder of 0. A division by ten makes
-- a number smaller, so a step for each unit of it is enough.
unfoldable pub explode_digits : ℕ → ℕ → List ℕ → List ℕ
explode_digits zero remainder digits = digits
explode_digits (suc fuel) remainder digits =
    let more = explode_digits fuel (remainder / 10) ((remainder % 10) ∷ digits) in
    if remainder == 0 then digits else more

-- `Explode<V>::Value`, by `ToChars`.
unfoldable pub explode : ℕ → Bytes
unfolding explode_digits
explode v = map (λ d. b'0' + d) (explode_digits v v [])

-- The digits that are written in front of others.
explode_digits-append :
    (fuel n : ℕ) (ds : List ℕ) → explode_digits fuel n ds ≡ explode_digits fuel n [] ++ ds
unfolding explode_digits
explode_digits-append zero n ds = refl
explode_digits-append (suc fuel) n ds = elim (Bool-cases (n == 0)) [
  | inl e ↦ rw e refl
  | inr e ↦ rw e (
      explode_digits-append fuel (n / 10) ((n % 10) ∷ ds)
      ∙ sym (
          ap (λ es. es ++ ds) (explode_digits-append fuel (n / 10) ((n % 10) ∷ []))
          ∙ append_assoc (explode_digits fuel (n / 10) []) ((n % 10) ∷ []) ds))
]

value_of-append :
    (acc d : ℕ) (ds : List ℕ) → value_of acc (ds ++ (d ∷ [])) ≡ value_of acc ds * 10 + d
unfolding value_of
value_of-append acc d [] = refl
value_of-append acc d (e ∷ ds) = value_of-append (acc * 10 + e) d ds

pub AreDigits-explode :
    (fuel n : ℕ) (ds : List ℕ) → AreDigits ds → AreDigits (explode_digits fuel n ds)
unfolding explode_digits
AreDigits-explode zero n ds h = h
AreDigits-explode (suc fuel) n ds h = elim (Bool-cases (n == 0)) [
  | inl e ↦ rw (e, explode_digits) h
  | inr e ↦
      rw (e, explode_digits) (AreDigits-explode fuel (n / 10) ((n % 10) ∷ ds) (omega arith, h))
]

pub value_of-explode : (fuel n : ℕ) → n ≤ fuel → value_of 0 (explode_digits fuel n []) ≡ n
unfolding explode_digits
value_of-explode zero n h = unfold value_of in omega arith
value_of-explode (suc fuel) n h = elim (Bool-cases (n == 0)) [
  | inl e ↦ rw e (unfold value_of in ground (arith, e))
  | inr e ↦
      let ih : value_of 0 (explode_digits fuel (n / 10) []) ≡ n / 10 =
        value_of-explode fuel (n / 10) (ground (arith, e)) in
      rw e (
        ap (value_of 0) (explode_digits-append fuel (n / 10) ((n % 10) ∷ []))
        ∙ value_of-append 0 (n % 10) (explode_digits fuel (n / 10) [])
        ∙ rw ih (omega arith))
]

written-map : (ds : List ℕ) → map (λ d. b'0' + d) ds ≡ written ds
written-map [] = refl
written-map (d ∷ ds) = ap (λ cs. (b'0' + d) ∷ cs) (written-map ds)

read_digits :
    (ds : List ℕ) (v : ℕ) (rest : Bytes) (modulus : ℕ)
    → AreDigits ds
    → value_of 0 ds ≡ v
    → 0 < v
    → v < modulus
    → NoDigitAhead rest
    → from_chars modulus (written ds ++ rest) ≡ some v
read_digits [] v rest modulus a e pos lt n =
    absurd (let z : 0 ≡ v = unfold value_of in e in omega arith)
read_digits (d ∷ ds) v rest modulus a e pos lt n =
    from_chars-written d ds rest modulus a n ∙ rw (e, lt→ltb v modulus lt) refl

explode_pos :
    (v : ℕ) (rest : Bytes) (modulus : ℕ)
    → 0 < v
    → v < modulus
    → NoDigitAhead rest
    → from_chars modulus (explode v ++ rest) ≡ some v
unfolding explode
explode_pos v rest modulus pos lt n =
    ap (λ t. from_chars modulus (t ++ rest)) (written-map (explode_digits v v []))
    ∙ read_digits (explode_digits v v []) v rest modulus (AreDigits-explode v v [] tt)
        (value_of-explode v v (omega arith)) pos lt n

explode_zero : explode 0 ≡ []
unfolding explode explode_digits
explode_zero = refl

-- The digits that are written for a number that is not 0 are read back as that number by a type
-- that holds it, whatever follows that is no digit; for 0 nothing is written.
pub from_chars-explode :
    (v : ℕ) (rest : Bytes) (modulus : ℕ)
    → v < modulus
    → NoDigitAhead rest
    → from_chars modulus (explode v ++ rest) ≡ (if v == 0 then from_chars modulus rest else some v)
from_chars-explode v rest modulus lt n = elim (Bool-cases (v == 0)) [
  | inl e ↦
      let z : v ≡ 0 = (==_iff v 0).0 e in
      rw e (
        ap (λ k. from_chars modulus (explode k ++ rest)) z
        ∙ ap (λ t. from_chars modulus (t ++ rest)) explode_zero)
  | inr e ↦ rw e (explode_pos v rest modulus (ground (arith, e)) lt n)
]

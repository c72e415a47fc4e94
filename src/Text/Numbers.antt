-- ===== src/Text/Numbers.antt =====
-- `std::from_chars` on an unsigned integer, as libtactmon calls it: base 10, and only `ec` is read.
pub mod Laws
use tactmon.Prelude.{
  ℕ, ◌+◌, ◌-◌, ◌*◌, ◌&&◌, Option, none, some, List, [], ◌∷◌, Bytes, ltb, leb, if◌then◌else◌,
  is_empty,
}

-- The digits at the front of a text, as values.
unfoldable pub digits_of : Bytes → List ℕ
digits_of [] = []
digits_of (c ∷ cs) = if leb b'0' c && leb c b'9' then (c - b'0') ∷ digits_of cs else []

unfoldable pub value_of : ℕ → List ℕ → ℕ
value_of acc [] = acc
value_of acc (d ∷ ds) = value_of (acc * 10 + d) ds

-- The value, where `ec` is `errc{}`: there is a digit, and the number is below `modulus`. What
-- stands behind the digits is not looked at. In the other cases the target keeps its value.
unfoldable pub from_chars : ℕ → Bytes → Option ℕ
unfolding digits_of value_of
from_chars modulus text =
    let ds = digits_of text in
    if is_empty ds
    then none
    else (if ltb (value_of 0 ds) modulus then some (value_of 0 ds) else none)

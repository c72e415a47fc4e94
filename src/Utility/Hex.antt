-- ===== src/Utility/Hex.antt =====
-- src/libtactmon/libtactmon/utility/Hex.cpp: bytes to hexadecimal text and back.
-- `DEBUG_ASSERT` checks nothing in a release build, and is not modelled.
pub mod RoundTrip
use tactmon.Prelude.{
  ℕ, ◌*◌, ◌/◌, ◌%◌, ◌^◌, bit_and, bit_or, List, [], ◌∷◌, Bytes, get_or, undefined, Result, ok,
  fault, ◌>>=◌,
}

-- `alphabet`.
abbrev pub alphabet : Bytes
alphabet =
    b'0' ∷ b'1' ∷ b'2' ∷ b'3' ∷ b'4' ∷ b'5' ∷ b'6' ∷ b'7' ∷ b'8' ∷ b'9' ∷ b'a' ∷ b'b' ∷ b'c' ∷ b'd'
    ∷ b'e' ∷ b'f' ∷ []

-- `hex`, both overloads: `output` is resized to twice the input, and every cell of it is written.
unfoldable pub hex : Bytes → Bytes
hex [] = []
hex (b ∷ bs) = get_or alphabet (b / 2 ^ 4) 0 ∷ get_or alphabet (bit_and b 0xf) 0 ∷ hex bs

-- `LOOKUP`: the entries that are not written out are 0.
abbrev lookup_table : List ℕ
lookup_table =
    0
    ∷ 0
    ∷ 0
    ∷ 0
    ∷ 0
    ∷ 0
    ∷ 0
    ∷ 0
    ∷ (0
        ∷ 0
        ∷ 0
        ∷ 0
        ∷ 0
        ∷ 0
        ∷ 0
        ∷ 0
        ∷ (0
            ∷ 0
            ∷ 0
            ∷ 0
            ∷ 0
            ∷ 0
            ∷ 0
            ∷ 0
            ∷ (0
                ∷ 0
                ∷ 0
                ∷ 0
                ∷ 0
                ∷ 0
                ∷ 0
                ∷ 0
                ∷ (0
                    ∷ 0
                    ∷ 0
                    ∷ 0
                    ∷ 0
                    ∷ 0
                    ∷ 0
                    ∷ 0
                    ∷ (0
                        ∷ 0
                        ∷ 0
                        ∷ 0
                        ∷ 0
                        ∷ 0
                        ∷ 0
                        ∷ 0
                        ∷ (0
                            ∷ 1
                            ∷ 2
                            ∷ 3
                            ∷ 4
                            ∷ 5
                            ∷ 6
                            ∷ 7
                            ∷ (8
                                ∷ 9
                                ∷ 0
                                ∷ 0
                                ∷ 0
                                ∷ 0
                                ∷ 0
                                ∷ 0
                                ∷ (0
                                    ∷ 10
                                    ∷ 11
                                    ∷ 12
                                    ∷ 13
                                    ∷ 14
                                    ∷ 15
                                    ∷ 0
                                    ∷ (0
                                        ∷ 0
                                        ∷ 0
                                        ∷ 0
                                        ∷ 0
                                        ∷ 0
                                        ∷ 0
                                        ∷ 0
                                        ∷ (0
                                            ∷ 0
                                            ∷ 0
                                            ∷ 0
                                            ∷ 0
                                            ∷ 0
                                            ∷ 0
                                            ∷ 0
                                            ∷ (0
                                                ∷ 0
                                                ∷ 0
                                                ∷ 0
                                                ∷ 0
                                                ∷ 0
                                                ∷ 0
                                                ∷ 0
                                                ∷ (0 ∷ 10 ∷ 11 ∷ 12 ∷ 13 ∷ 14 ∷ 15 ∷ []))))))))))))

pub lookup : ℕ → ℕ
lookup c = get_or lookup_table c 0

-- What one round of `unhex` stores, in a `uint8_t`.
pub join : ℕ → ℕ → ℕ
join hi lo = bit_or (lookup lo) (lookup hi * 2 ^ 4) % 2 ^ 8

-- `unhex`: the characters are taken in pairs and stored in the cells of `target`. A character or a
-- cell that is not there is an access out of bounds. Cells behind the last pair keep their value.
unfoldable pub unhex : Bytes → Bytes → Result Bytes
unfolding join lookup
unhex [] target = ok target
unhex (hi ∷ []) target = fault undefined
unhex (hi ∷ lo ∷ input) [] = fault undefined
unhex (hi ∷ lo ∷ input) (cell ∷ target) = do rest ← unhex input target; ok (join hi lo ∷ rest)

-- ===== src/Utility/Endian.antt =====
-- src/libtactmon/libtactmon/utility/Endian.hpp: the order of the bytes of a machine word.
-- The native order is taken to be little endian.
pub mod Laws
use tactmon.Prelude.{
  ℕ, zero, suc, ◌+◌, ◌*◌, ◌/◌, ◌%◌, Bool, true, false, [], ◌∷◌, reverse, Bytes, if◌then◌else◌,
}

-- `std::endian`.
pub data Endian : Type 0 where
  little big : Endian

unfoldable pub is_native : Endian → Bool
is_native little = true
is_native big = false

-- `bit_cast` between a word of `k` bytes and the array of its bytes, both ways.
unfoldable pub to_bytes : ℕ → ℕ → Bytes
to_bytes zero v = []
to_bytes (suc k) v = v % 256 ∷ to_bytes k (v / 256)

unfoldable pub of_bytes : Bytes → ℕ
of_bytes [] = 0
of_bytes (b ∷ bs) = b + 256 * of_bytes bs

-- `byteswap` on a word of `k` bytes.
unfoldable pub byteswap : ℕ → ℕ → ℕ
byteswap k v = of_bytes (reverse (to_bytes k v))

abbrev same_endian : Endian → Endian → Bool
same_endian little little = true
same_endian big big = true
same_endian _ _ = false

-- `to_endianness`, both overloads.
unfoldable pub to_endianness : ℕ → ℕ → Endian → Endian → ℕ
to_endianness k v source target = if same_endian source target then v else byteswap k v

-- ===== src/Tact/Key.antt =====
-- src/libtactmon/libtactmon/tact/detail/Key.hpp and Key.cpp, CKey.hpp and CKey.cpp, EKey.hpp and
-- EKey.cpp: content keys and encoding keys. The two classes have the same members.
pub mod Laws
use tactmon.Prelude.{
  ◌/◌, Bool, true, false, not, [], Bytes, ◌==◌, if◌then◌else◌, length, take, zeros, equal, Result,
  ok, ◌>>=◌,
}
use tactmon.Utility.Hex.{hex, unhex}

-- `_data`, an array of `_size` bytes; `_size` is its length.
pub record Key : Type 0 where
  pub bytes : Bytes

-- The constructors: empty, and a copy of a span.
abbrev pub empty_key : Key
empty_key = record { bytes = [] }

abbrev pub key_of : Bytes → Key
key_of bs = record { bytes = bs }

-- The copy constructor and the copy assignment: the key itself.
unfoldable pub copy_key : Key → Key
copy_key other = record { bytes = take (length other.bytes) other.bytes }

-- The move constructor and the move assignment: the new key, and what is left of the other.
unfoldable pub move_key : Key → Key × Key
move_key other = (record { bytes = other.bytes }, record { bytes = [] })

unfoldable pub to_string : Key → Bytes
to_string k = hex k.bytes

-- `TryParse`: the flag that it returns, and the target afterwards.
unfoldable pub try_parse : Bytes → Result (Bool × Key)
try_parse value = do bs ← unhex value (zeros (length value / 2)); ok (true, record { bytes = bs })

-- `operator ==` on two keys: the sizes first, then the bytes.
unfoldable pub key_equal : Key → Key → Bool
key_equal left right =
    if not (length left.bytes == length right.bytes) then false else equal left.bytes right.bytes

-- `operator ==` on a key and a range.
unfoldable pub key_equal_range : Key → Bytes → Bool
key_equal_range left right = equal left.bytes right

-- ===== src/Tests/Keys.antt =====
-- The theorems of libtactmon/tact/CKey, EKey and data/FileLocation at concrete inputs.
use tactmon.Prelude.{◌≡◌, true, [], ◌∷◌, arith, ok}
use tactmon.Tact.Data.FileLocation.{FileLocation}
use tactmon.Tact.Key.{Key, key_of, to_string, try_parse}
use tactmon.Tact.Key.Laws.{try_parse-to_string}

abbrev key_a : Key
key_a = key_of (0xab ∷ 0x01 ∷ [])

try_parse-to_string_example : try_parse (to_string key_a) ≡ ok (true, key_a)
try_parse-to_string_example = try_parse-to_string key_a (ground arith)

abbrev two_keys : FileLocation
two_keys = record { file_size = 7; key_count = 2; keys = 1 ∷ 2 ∷ 3 ∷ 4 ∷ [] }

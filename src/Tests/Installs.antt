-- ===== src/Tests/Installs.antt =====
-- The theorems of libtactmon/tact/data/Install at concrete inputs.
use tactmon.Prelude.{[], ◌∷◌, codes}
use tactmon.Tact.Data.Install.{Tag, Entry, Install}
use tactmon.Tact.Key.{key_of}

abbrev entry_a : Entry
entry_a = record { name = codes "a.exe"; file_size = 5; hash = key_of (1 ∷ []) }

abbrev manifest : Install
manifest = record { tags = []; entries = entry_a ∷ [] }

-- A tag of nine files, in two bytes.
abbrev tag : Tag
tag = record { name = codes "x"; kind = 1; bitmask_size = 9; bitmask = 1 ∷ 2 ∷ [] }

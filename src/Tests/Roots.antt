-- ===== src/Tests/Roots.antt =====
-- The theorems of libtactmon/tact/data/product/wow/Root at concrete inputs.
use tactmon.Prelude.{ℕ, ◌≡◌, refl, some, List, [], ◌∷◌, arith}
use tactmon.Tact.Data.Root.{Entry, Block, find_by_id}
use tactmon.Tact.Data.Root.Find.{find_by_id-lower_bound}
use tactmon.Tact.Key.{key_of}

abbrev entry_of : ℕ → Entry
entry_of n = record { content_key = key_of (n ∷ []); file_data_id = n; name_hash = 0 }

abbrev block_of : List Entry → Block
block_of es = record { content_flags = 0; locale_flags = 0; entries = es }

-- The id 6 is in the manifest, behind a block that has 3 and 7: the key of 7 is what is found.
find_by_id-lower_bound_example :
    find_by_id 6 (
      block_of (entry_of 1 ∷ [])
      ∷ block_of (entry_of 3 ∷ entry_of 7 ∷ [])
      ∷ block_of (entry_of 6 ∷ [])
      ∷ [])
    ≡ some (key_of (7 ∷ []))
find_by_id-lower_bound_example =
    find_by_id-lower_bound 6 (block_of (entry_of 1 ∷ []) ∷ []) (block_of (entry_of 6 ∷ []) ∷ [])
      (block_of (entry_of 3 ∷ entry_of 7 ∷ [])) (entry_of 3 ∷ []) [] (entry_of 7) (ground arith)
      refl (ground arith) (ground arith)

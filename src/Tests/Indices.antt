-- ===== src/Tests/Indices.antt =====
-- The theorems of libtactmon/tact/data/Index at concrete inputs.
use tactmon.Prelude.{ℕ, ◌≡◌, refl, none, some, [], ◌∷◌, arith, zeros, codes, equal, hangs, fault}
use tactmon.Io.File.{file_readable}
use tactmon.Io.Growable.{growable_readable, of_span}
use tactmon.Tact.Data.Index.{Entry, Index, lookup, key_of_entry, find_checksum_size}
use tactmon.Tact.Data.Index.Search.{short_stream_hangs}
use tactmon.Tact.Key.{key_of}

abbrev entry_at : ℕ → Entry
entry_at n = record { key_offset = n; size = 5; offset = 6 }

-- Two keys of two bytes.
abbrev index : Index
index = record {
  name = codes "a";
  key_size = 2;
  key_buffer = 1 ∷ 2 ∷ 3 ∷ 4 ∷ [];
  entries = entry_at 0 ∷ entry_at 2 ∷ [];
}

is_there : lookup index (key_of (3 ∷ 4 ∷ [])) ≡ some (entry_at 2)
unfolding lookup tactmon.Tact.Data.Index.find_entry key_of_entry equal
is_there = refl

is_missing : lookup index (key_of (2 ∷ 3 ∷ [])) ≡ none
unfolding lookup tactmon.Tact.Data.Index.find_entry key_of_entry equal
is_missing = refl

short_stream_hangs_example : find_checksum_size (λ bs. bs) [] 16 (of_span (zeros 43)) ≡ fault hangs
short_stream_hangs_example =
    short_stream_hangs (λ bs. bs) [] (of_span (zeros 43)) 15 (omega arith) (omega arith)

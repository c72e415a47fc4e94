-- ===== src/Tests/Encodings.antt =====
-- The theorems of libtactmon/tact/data/Encoding at concrete inputs.
use tactmon.Prelude.{◌≡◌, refl, some, [], ◌∷◌, ◌++◌, arith, equal, ok}
use tactmon.Io.Growable.{GrowableMemoryStream, growable_readable, of_span}
use tactmon.Io.Growable.Reads.{At, of_span-At, growable-ReadsSequentially}
use tactmon.Tact.Data.Encoding.{Header, Entry, Encoding, read_entry, find_file, location_of}
use tactmon.Tact.Data.Encoding.Entries.{Fits, entry_bytes, read_entry-entry_bytes}
use tactmon.Tact.Data.Encoding.Lookup.{find_file-first}
use tactmon.Tact.Key.{key_of}

-- A header of keys of two bytes, and a manifest of two pages.
abbrev header : Header
header = record {
  signature = 0x454e;
  version = 1;
  encoding_key_size = 2;
  content_key_size = 2;
  cekey_page_size = 4;
  spec_page_size = 4;
  cekey_page_count = 2;
  spec_page_count = 0;
  spec_block_size = 0;
}

abbrev entry_a : Entry
entry_a = record { key_count = 1; file_size = 258; ckey = 1 ∷ 1 ∷ []; ekeys = 7 ∷ 8 ∷ [] }

abbrev entry_b : Entry
entry_b = record { key_count = 2; file_size = 9; ckey = 2 ∷ 2 ∷ []; ekeys = 3 ∷ 4 ∷ 5 ∷ 6 ∷ [] }

abbrev manifest : Encoding
manifest = record { header = header; pages = (entry_a ∷ []) ∷ (entry_b ∷ []) ∷ [] }

find_file-first_example :
    find_file manifest (key_of (2 ∷ 2 ∷ [])) ≡ some (location_of header entry_b)
unfolding tactmon.Tact.Data.Encoding.is_for tactmon.Tact.Key.key_equal equal
find_file-first_example =
    find_file-first manifest (key_of (2 ∷ 2 ∷ [])) (entry_a ∷ []) [] entry_b refl (refl, tt) refl

entry_a-Fits : Fits header entry_a
entry_a-Fits = record {
  key_count_fits = omega arith;
  file_size_fits = omega arith;
  ckey_size = refl;
  ekeys_size = refl;
  has_keys = omega arith;
}

read_entry-entry_bytes_example :
    (s' : GrowableMemoryStream) × (read_entry header (of_span (entry_bytes entry_a ++ (9 ∷ [])))
      ≡ ok (entry_a, s'))
    × At s' (9 ∷ [])
unfolding tactmon.Io.Readable.Values.encode tactmon.Utility.Endian.to_bytes
read_entry-entry_bytes_example =
    read_entry-entry_bytes growable-ReadsSequentially (of_span (entry_bytes entry_a ++ (9 ∷ [])))
      header entry_a (9 ∷ []) entry_a-Fits
      (of_span-At (entry_bytes entry_a ++ (9 ∷ [])) (omega arith))

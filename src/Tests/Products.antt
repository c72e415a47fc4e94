-- ===== src/Tests/Products.antt =====
-- The theorems of libtactmon/tact/data/product at concrete inputs.
use tactmon.Prelude.{
  ℕ, suc, ◌≡◌, refl, Option, none, some, List, [], ◌∷◌, arith, Bytes, if◌then◌else◌, codes, equal,
  Result, ok,
}
use tactmon.Ribbit.Commands.{Versions}
use tactmon.Ribbit.Records.{CdnsRecord, SummaryRecord}
use tactmon.Tact.Data.FileLocation.{ArchiveFileLocation}
use tactmon.Tact.Data.Index.{Entry, Index, lookup}
use tactmon.Tact.Data.Product.{Product, find_archive, refresh, resolve}
use tactmon.Tact.Data.Product.Find.{find_archive-first, refresh-IsCurrent, IsCurrent}
use tactmon.Tact.Data.Product.Resolve.{resolve_downloaded, no_servers, no_hosts, no_answer, parsed}
use tactmon.Tact.Key.{Key, key_of}

abbrev entry_x : Entry
entry_x = record { key_offset = 0; size = 5; offset = 6 }

-- An index of one key of one byte.
abbrev index_of : Bytes → ℕ → Index
index_of name k = record { name = name; key_size = 1; key_buffer = k ∷ []; entries = entry_x ∷ [] }

abbrev product : List Index → Option Index → Product
product is single = record {
  name = codes "wow";
  encoding = none;
  install = none;
  indices = is;
  file_index = single;
  root = none;
}

abbrev key_of_two : Key
key_of_two = key_of (2 ∷ [])

abbrev location : Bytes → ArchiveFileLocation
location name = record { name = name; offset = 6; file_size = 5 }

hit : (name : Bytes) → lookup (index_of name 2) key_of_two ≡ some entry_x
unfolding lookup tactmon.Tact.Data.Index.find_entry tactmon.Tact.Data.Index.key_of_entry equal
hit name = refl

miss : (name : Bytes) → lookup (index_of name 1) key_of_two ≡ none
unfolding lookup tactmon.Tact.Data.Index.find_entry tactmon.Tact.Data.Index.key_of_entry equal
miss name = refl

find_archive-first_example :
    find_archive (product (index_of (codes "a") 1 ∷ index_of (codes "b") 2 ∷ []) none) key_of_two
    ≡ some (location (codes "b"))
find_archive-first_example =
    find_archive-first (product (index_of (codes "a") 1 ∷ index_of (codes "b") 2 ∷ []) none)
      key_of_two (index_of (codes "a") 1 ∷ []) [] (index_of (codes "b") 2) entry_x
      (λ i e. absurd (grind (arith, e))) refl (miss (codes "a"), tt) (hit (codes "b"))

abbrev summary : List SummaryRecord
summary = record { product = codes "wow"; sequence_id = 9; flags = [] } ∷ []

abbrev versions : Versions
versions = record { records = []; sequence_id = 9 }

is_fresh : refresh (codes "wow") (some summary) (some versions) ≡ some versions
unfolding refresh tactmon.Tact.Data.Product.find_summary equal
is_fresh = refl

refresh-IsCurrent_example :
    (some versions ≡ some versions)
    × ((records : List SummaryRecord) × (r : SummaryRecord) × (some summary ≡ some records)
        × IsCurrent (codes "wow") records r
        × (9 ≡ r.sequence_id))
refresh-IsCurrent_example =
    refresh-IsCurrent (codes "wow") (some summary) (some versions) versions is_fresh

-- A server of two hosts, of which "h" answers with the path.
abbrev cdn : CdnsRecord
cdn = record {
  name = codes "eu";
  path = codes "p";
  hosts = codes "g" ∷ codes "h" ∷ [];
  servers = [];
  config_path = [];
}

-- The state counts the downloads.
abbrev download : Bytes → Bytes → ℕ → Result (Option Bytes) × ℕ
download host path n = (ok (if equal host (codes "h") then some path else none), suc n)

abbrev cached : Bytes → ℕ → Result (Option Bytes) × ℕ
cached path n = (ok none, n)

abbrev path_of : CdnsRecord → Result Bytes
path_of c = ok c.path

abbrev parser : Bytes → Result (Option Bytes)
parser f = ok (some f)

resolve_downloaded_example :
    resolve cached download parser path_of (cdn ∷ []) 0 ≡ (ok (some (codes "p")), 2)
unfolding equal
resolve_downloaded_example =
    resolve_downloaded cached download parser path_of [] [] cdn (codes "p") (codes "g" ∷ []) []
      (codes "h") 0 0 0 1 2 (ok (some (codes "p"))) no_servers refl refl refl
      (no_answer (codes "g") refl no_hosts) (parsed (codes "p") (codes "p") refl refl)

-- ===== src/Tact/Data/Product.antt =====
-- src/libtactmon/libtactmon/tact/data/product: Product.cpp, Utility.hpp and wow/Product.cpp. How a
-- product finds its files, and how a resource is found on disk or downloaded.
pub mod Find
pub mod Resolve
use tactmon.Prelude.{
  ℕ, zero, suc, ◌+◌, ◌-◌, ◌*◌, ◌/◌, ◌%◌, ◌^◌, ◌≤◌, ◌<◌, min, max, bit_and, bit_or, ◌≡◌, refl, sym,
  ap, ◌∙◌, ◌≢◌, ◌↔◌, ◌⊎◌, inl, inr, Bool, true, false, not, ◌&&◌, ◌||◌, Option, none, some, List,
  [], ◌∷◌, ◌++◌, map, reverse, arith, Bytes, IsByte, AreBytes, ltb, leb, ◌==◌, if◌then◌else◌,
  lt→ltb, le→ltb, le→leb, leb→le, ==_iff, Bool-cases, Option-cases, length, get_elem?, get_or, take,
  drop, replicate, zeros, length-zeros, codes, equal, equal_iff, String, All, is_empty,
  length-append, length-take, length-drop, length-replicate, length-map, length-reverse,
  take-append-drop, take-append, drop-append, take_all, drop_all, drop-nil, drop-drop, drop-min,
  All-append, Fault, undefined, hangs, throws, Result, ok, fault, ◌>>=◌, bind-eq-ok, size_mod,
  u32_mod, add64, sub64,
}
use tactmon.Ribbit.Commands.{Versions}
use tactmon.Ribbit.Records.{CdnsRecord, SummaryRecord}
use tactmon.Tact.Data.Encoding.{Encoding}
use tactmon.Tact.Data.Encoding
use tactmon.Tact.Data.FileLocation.{FileLocation, ArchiveFileLocation}
use tactmon.Tact.Data.Index.{Index, lookup}
use tactmon.Tact.Data.Install.{Install}
use tactmon.Tact.Data.Install
use tactmon.Tact.Data.Root.{Block, find_by_id, find_by_name}
use tactmon.Tact.Key.{Key, to_string}

-- The members of `Product` that the searches read, and `_root` of the subclass.
pub record Product : Type 0 where
  pub name : Bytes
  pub encoding : Option Encoding
  pub install : Option Install
  pub indices : List Index
  pub file_index : Option Index
  pub root : Option (List Block)

-- `FindFile(CKey)`.
unfoldable pub find_key : Product → Key → Option FileLocation
find_key p key = elim p.encoding [ none ↦ none | some e ↦ Encoding.find_file e key ]

-- `FindFile(std::string_view)`: `_install` is read whether or not it has a value.
unfoldable pub find_file : Product → Bytes → Result (Option FileLocation)
unfolding find_key
find_file p name = elim p.install [
  | none ↦ fault undefined
  | some i ↦ ok (elim (Install.find_file i name) [ none ↦ none | some key ↦ find_key p key ])
]

-- The loop of `FindArchive` over the indices.
unfoldable pub find_in_indices : Key → List Index → Option ArchiveFileLocation
find_in_indices key [] = none
find_in_indices key (i ∷ is) = elim (lookup i key) [
  | none ↦ find_in_indices key is
  | some e ↦ some (record { name = i.name; offset = e.offset; file_size = e.size })
]

-- `FindArchive`: the index of files that are in no archive comes first.
unfoldable pub find_archive : Product → Key → Option ArchiveFileLocation
unfolding find_in_indices
find_archive p key =
    let archived = find_in_indices key p.indices in
    elim p.file_index [
      | none ↦ archived
      | some i ↦ elim (lookup i key) [
        | none ↦ archived
        | some e ↦ some (record { name = to_string key; offset = e.offset; file_size = e.size })
      ]
    ]

-- `wow::Product::FindFile`, by the name and by the id; `jenkins` is `JenkinsHash`.
unfoldable pub wow_find_file : (Bytes → ℕ) → Product → Bytes → Result (Option FileLocation)
wow_find_file jenkins p name = do
  parent ← find_file p name
  ok (elim parent [
    | some l ↦ some l
    | none ↦ elim p.root [
      | none ↦ none
      | some blocks ↦ elim (find_by_name jenkins name blocks) [
        | none ↦ none
        | some key ↦ find_key p key
      ]
    ]
  ])

unfoldable pub wow_find_id : Product → ℕ → Option FileLocation
unfolding find_key
wow_find_id p fdid = elim p.root [
  | none ↦ none
  | some blocks ↦ elim (find_by_id fdid blocks) [ none ↦ none | some key ↦ find_key p key ]
]

-- `Refresh`, on the answers to its two requests: versions are taken only where the sequence number
-- is that of the summary.
unfoldable pub find_summary : Bytes → List SummaryRecord → Option SummaryRecord
find_summary name [] = none
find_summary name (r ∷ rs) =
    if equal r.product name && is_empty r.flags then some r else find_summary name rs

unfoldable pub refresh : Bytes → Option (List SummaryRecord) → Option Versions → Option Versions
unfolding find_summary
refresh name summary versions = elim summary [
  | none ↦ none
  | some records ↦ elim (find_summary name records) [
    | none ↦ none
    | some r ↦ elim versions [
      | none ↦ none
      | some v ↦ if not (v.sequence_id == r.sequence_id) then none else some v
    ]
  ]
]

-- A loop goes on, in the state that is left, where a round throws nothing and gives nothing.
unfoldable pub or_next {ℓ ι} :
    {A : Type ℓ} {W : Type ι}
    → Result (Option A) × W
    → (W → Result (Option A) × W)
    → Result (Option A) × W
or_next (fault e, w) next = (fault e, w)
or_next (ok none, w) next = next w
or_next (ok (some a), w) next = (ok (some a), w)

-- The parser is called on a download.
unfoldable pub parse_download {ℓ κ ι} :
    {A : Type ℓ} {F : Type κ} {W : Type ι}
    → (F → Result (Option A))
    → Result (Option F) × W
    → Result (Option A) × W
parse_download parser (fault e, w) = (fault e, w)
parse_download parser (ok none, w) = (ok none, w)
parse_download parser (ok (some file), w) = (parser file, w)

-- `ResourceResolver::Resolve`. The cache and the network are parameters, over a state `W` of the
-- files and the network: `cached` is `Cache::Resolve` with the parser, `download` is `Run` of a
-- FileDownloadTask for a host, and `parser` reads what was downloaded. What any of them throws leaves
-- `Resolve`.
module _ {ℓ κ ι} {A : Type ℓ} {F : Type κ} {W : Type ι} (cached : Bytes → W → Result (Option A) × W)
    (download : Bytes → Bytes → W → Result (Option F) × W) (parser : F → Result (Option A)) where
  unfoldable pub from_hosts : Bytes → List Bytes → W → Result (Option A) × W
  unfolding or_next parse_download
  from_hosts path [] w = (ok none, w)
  from_hosts path (host ∷ hosts) w =
      or_next (parse_download parser (download host path w)) (from_hosts path hosts)

  -- `path_of` formats the path of a server, as `resource_path` does.
  unfoldable pub resolve : (CdnsRecord → Result Bytes) → List CdnsRecord → W → Result (Option A) × W
  unfolding from_hosts
  resolve path_of [] w = (ok none, w)
  resolve path_of (cdn ∷ cdns) w = elim (path_of cdn) [
    | fault e ↦ (fault e, w)
    | ok path ↦ or_next (or_next (cached path w) (from_hosts path cdn.hosts)) (resolve path_of cdns)
  ]

-- The path that `ResolveConfiguration` and `ResolveData` format; `substr` throws where it starts
-- behind the end of the key.
unfoldable pub resource_path : Bytes → Bytes → CdnsRecord → Result Bytes
resource_path kind key cdn =
    if ltb (length key) 2
    then fault throws
    else ok (
        b'/'
        ∷ (cdn.path
            ++ (b'/'
                ∷ (kind
                    ++ (b'/' ∷ (take 2 key ++ (b'/' ∷ (take 2 (drop 2 key) ++ (b'/' ∷ key)))))))))

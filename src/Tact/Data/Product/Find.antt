-- ===== src/Tact/Data/Product/Find.antt =====
-- The order in which a product searches, and the versions that a refresh gives.
use mathlib.Core.Path.{subst}
use tactmon.Prelude.{
  ℕ, ◌≡◌, refl, sym, ap, ◌∙◌, inl, inr, Bool, true, false, not, ◌&&◌, Option, none, some, List, [],
  ◌∷◌, ◌++◌, arith, Bytes, ◌==◌, if◌then◌else◌, ==_iff, Bool-cases, Option-cases, equal, equal_iff,
  All, is_empty,
}
use tactmon.Ribbit.Commands.{Versions}
use tactmon.Ribbit.Records.{SummaryRecord}
use tactmon.Tact.Data.FileLocation.{ArchiveFileLocation}
use tactmon.Tact.Data.Index.{Entry, Index, lookup}
use tactmon.Tact.Data.Product.{Product, find_in_indices, find_archive, find_summary, refresh}
use tactmon.Tact.Key.{Key, to_string}

-- The place an entry of an index names.
abbrev pub place : Bytes → Entry → ArchiveFileLocation
place name e = record { name = name; offset = e.offset; file_size = e.size }

find_in_indices-first :
    (key : Key) (before after : List Index) (i : Index) (e : Entry)
    → All (λ j. lookup j key ≡ none) before
    → lookup i key ≡ some e
    → find_in_indices key (before ++ (i ∷ after)) ≡ some (place i.name e)
unfolding find_in_indices
find_in_indices-first key [] after i e misses hit = rw (hit, find_in_indices)
find_in_indices-first key (j ∷ before) after i e (miss, misses) hit =
    rw (miss, find_in_indices) (find_in_indices-first key before after i e misses hit)

find_in_indices-none :
    (key : Key) (is : List Index)
    → All (λ j. lookup j key ≡ none) is
    → find_in_indices key is ≡ none
unfolding find_in_indices
find_in_indices-none key [] misses = refl
find_in_indices-none key (j ∷ is) (miss, misses) =
    rw (miss, find_in_indices) (find_in_indices-none key is misses)

-- Whether the index of single files has no entry of the key.
abbrev pub NotSingle : Product → Key → Type 0
NotSingle p key = (i : Index) → p.file_index ≡ some i → lookup i key ≡ none

find_archive-archived :
    (p : Product) (key : Key) → NotSingle p key → find_archive p key ≡ find_in_indices key p.indices
unfolding find_archive
find_archive-archived p key h = elim (Option-cases p.file_index) [
  | inl e ↦ rw e
  | inr (i, e) ↦ rw (e, h i e, find_archive)
]

-- `FindArchive` gives what the index of single files has for the key, named by the key, whatever the
-- other indices hold.
pub find_archive_single :
    (p : Product) (key : Key) (i : Index) (e : Entry)
    → p.file_index ≡ some i
    → lookup i key ≡ some e
    → find_archive p key ≡ some (place (to_string key) e)
unfolding find_archive
find_archive_single p key i e single hit = rw (single, hit, find_archive)

-- Where the index of single files has no entry, `FindArchive` gives the entry of the first index that
-- has one, named by that index, whatever the ones behind it hold.
pub find_archive-first :
    (p : Product) (key : Key) (before after : List Index) (i : Index) (e : Entry)
    → NotSingle p key
    → p.indices ≡ before ++ (i ∷ after)
    → All (λ j. lookup j key ≡ none) before
    → lookup i key ≡ some e
    → find_archive p key ≡ some (place i.name e)
find_archive-first p key before after i e h split misses hit =
    find_archive-archived p key h
    ∙ ap (find_in_indices key) split
    ∙ find_in_indices-first key before after i e misses hit

-- Where no index has an entry, `FindArchive` gives nothing.
pub find_archive_missing :
    (p : Product) (key : Key)
    → NotSingle p key
    → All (λ j. lookup j key ≡ none) p.indices
    → find_archive p key ≡ none
find_archive_missing p key h misses =
    find_archive-archived p key h ∙ find_in_indices-none key p.indices misses

-- A record of the summary, with what is before it.
abbrev pub IsCurrent : Bytes → List SummaryRecord → SummaryRecord → Type 0
IsCurrent name records r =
    (before : List SummaryRecord) × (after : List SummaryRecord) × (records ≡ before ++ (r ∷ after))
    × (r.product ≡ name)
    × (r.flags ≡ [])

some-eq {ℓ} : {A : Type ℓ} {x y : A} → some x ≡ some y → x ≡ y
some-eq h = cc

empty-nil : (bs : Bytes) → is_empty bs ≡ true → bs ≡ []
empty-nil [] h = refl
empty-nil (b ∷ bs) h = absurd (grind arith)

and-both : (a b : Bool) → a && b ≡ true → (a ≡ true) × (b ≡ true)
and-both true true h = (refl, refl)
and-both true false h = absurd (grind arith)
and-both false b h = absurd (grind arith)

find_summary-IsCurrent :
    (name : Bytes) (records : List SummaryRecord) (r : SummaryRecord)
    → find_summary name records ≡ some r
    → IsCurrent name records r
unfolding find_summary
find_summary-IsCurrent name [] r h = absurd (grind arith)
find_summary-IsCurrent name (x ∷ xs) r h =
    let step = λ (b : Bool). if b then some x else find_summary name xs in
    elim (Bool-cases (equal x.product name && is_empty x.flags)) [
      | inl e ↦
          let same : some x ≡ some r = sym (ap step e) ∙ h in
          let (p, q) = and-both (equal x.product name) (is_empty x.flags) e in
          subst (IsCurrent name (x ∷ xs)) (some-eq same)
            ([], xs, refl, (equal_iff x.product name).0 p, empty-nil x.flags q)
      | inr e ↦
          let (before, after, split, p, q) =
            find_summary-IsCurrent name xs r (sym (ap step e) ∙ h) in
          (x ∷ before, after, ap (λ l. x ∷ l) split, p, q)
    ]

not_stale :
    (w v : Versions) (n : ℕ)
    → (if not (w.sequence_id == n) then none else some w) ≡ some v
    → (some w ≡ some v) × (v.sequence_id ≡ n)
not_stale w v n h = elim (Bool-cases (w.sequence_id == n)) [
  | inl e ↦
      let same : some w ≡ some v = sym (ap (λ b. if not b then none else some w) e) ∙ h in
      (same, ap (λ x. x.sequence_id) (sym (some-eq same)) ∙ (==_iff w.sequence_id n).0 e)
  | inr e ↦ absurd (grind arith)
]

-- Where `Refresh` gives versions, the server sent them, and its summary has a record of the
-- product without flags whose sequence number is that of the versions.
pub refresh-IsCurrent :
    (name : Bytes) (summary : Option (List SummaryRecord)) (versions : Option Versions)
    (v : Versions)
    → refresh name summary versions ≡ some v
    → (versions ≡ some v)
      × ((records : List SummaryRecord) × (r : SummaryRecord) × (summary ≡ some records)
          × IsCurrent name records r
          × (v.sequence_id ≡ r.sequence_id))
unfolding refresh
refresh-IsCurrent name none versions v h = absurd (grind arith)
refresh-IsCurrent name (some records) none v h = elim (Option-cases (find_summary name records)) [
  | inl e ↦ absurd (grind arith)
  | inr (r, e) ↦ absurd (grind arith)
]
refresh-IsCurrent name (some records) (some w) v h =
    elim (Option-cases (find_summary name records)) [
      | inl e ↦ absurd (grind arith)
      | inr (r, e) ↦
          let chosen : Option SummaryRecord → Option Versions = λ o. elim o [
            | none ↦ none
            | some x ↦ if not (w.sequence_id == x.sequence_id) then none else some w
          ] in
          let (same, number) = not_stale w v r.sequence_id (sym (ap chosen e) ∙ h) in
          (same, (records, r, refl, find_summary-IsCurrent name records r e, number))
    ]

-- ===== src/Tact/Data/Index/Lookup.antt =====
-- `operator []` of an index, against its list of entries.
use tactmon.Prelude.{
  ◌≡◌, sym, ap, ◌∙◌, inl, inr, false, none, some, List, [], ◌∷◌, ◌++◌, arith, Bytes, Bool-cases,
  equal, equal_iff, All,
}
use tactmon.Tact.Data.Index.{Entry, Index, key_of_entry, find_entry, lookup}
use tactmon.Tact.Key.{Key}

abbrev pub NotKeyed : Index → Bytes → List Entry → Type 0
NotKeyed index key = All (λ e. equal (key_of_entry index e) key ≡ false)

find_entry-some :
    (index : Index) (key : Bytes) (es : List Entry) (found : Entry)
    → find_entry index key es ≡ some found
    → (before after : List Entry) × (es ≡ before ++ (found ∷ after))
      × NotKeyed index key before
      × (key_of_entry index found ≡ key)
unfolding find_entry
find_entry-some index key [] found h = cc
find_entry-some index key (x ∷ es) found h = elim (Bool-cases (equal (key_of_entry index x) key)) [
  | inl same ↦
      let e : x ≡ found = ground (arith, h, same) in
      (
        [],
        es,
        ap (λ y. y ∷ es) e,
        tt,
        ap (key_of_entry index) (sym e) ∙ (equal_iff (key_of_entry index x) key).0 same,
      )
  | inr other ↦
      let (before, after, split, n, keyed) = find_entry-some index key es found (rw other at h) in
      (x ∷ before, after, ap (◌∷◌ x) split, (other, n), keyed)
]

find_entry-none :
    (index : Index) (key : Bytes) (es : List Entry)
    → find_entry index key es ≡ none
    → NotKeyed index key es
unfolding find_entry
find_entry-none index key [] h = tt
find_entry-none index key (x ∷ es) h = elim (Bool-cases (equal (key_of_entry index x) key)) [
  | inl same ↦ absurd (ground (arith, h, same))
  | inr other ↦ (other, find_entry-none index key es (rw other at h))
]

-- What `operator []` gives is the first entry with the key in the key buffer.
pub lookup-first :
    (index : Index) (key : Key) (found : Entry)
    → lookup index key ≡ some found
    → (before after : List Entry) × (index.entries ≡ before ++ (found ∷ after))
      × NotKeyed index key.bytes before
      × (key_of_entry index found ≡ key.bytes)
unfolding lookup
lookup-first index key = find_entry-some index key.bytes index.entries

-- Where `operator []` gives nothing, no entry of the index has the key.
pub lookup_missing :
    (index : Index) (key : Key) → lookup index key ≡ none → NotKeyed index key.bytes index.entries
unfolding lookup
lookup_missing index key = find_entry-none index key.bytes index.entries

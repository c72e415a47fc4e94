-- ===== src/Tact/Data/Install/Lookup.antt =====
-- `FindFile` on an install manifest, and the copies of its tags.
use tactmon.Prelude.{
  ◌+◌, ◌/◌, ◌≤◌, ◌≡◌, refl, ap, ◌∙◌, ◌↔◌, inl, inr, false, some, List, [], ◌∷◌, ◌++◌, arith, Bytes,
  lt→ltb, Bool-cases, length, equal, equal_iff, All, undefined, fault,
}
use tactmon.Tact.Data.Install.{Tag, Entry, Install, copy_tag, move_tag, find_entry, find_file}
use tactmon.Tact.Key.{Key}

abbrev pub NotNamed : Bytes → List Entry → Type 0
NotNamed name = All (λ e. equal e.name name ≡ false)

find_entry-first :
    (name : Bytes) (before after : List Entry) (e : Entry)
    → NotNamed name before
    → e.name ≡ name
    → find_entry (before ++ (e ∷ after)) name ≡ some e.hash
unfolding find_entry
find_entry-first name [] after e n f = rw ((equal_iff e.name name).1 f)
find_entry-first name (x ∷ before) after e (p, n) f =
    rw p (find_entry-first name before after e n f)

find_entry-some :
    (name : Bytes) (es : List Entry) (key : Key)
    → find_entry es name ≡ some key
    → (before after : List Entry) × (e : Entry) × (es ≡ before ++ (e ∷ after))
      × NotNamed name before
      × (e.name ≡ name)
      × (e.hash ≡ key)
unfolding find_entry
find_entry-some name [] key h = cc
find_entry-some name (x ∷ es) key h = elim (Bool-cases (equal x.name name)) [
  | inl same ↦ ([], es, x, refl, tt, (equal_iff x.name name).0 same, ground (arith, h, same))
  | inr other ↦
      let (before, after, e, split, n, named, hash) = find_entry-some name es key (rw other at h) in
      (x ∷ before, after, e, ap (◌∷◌ x) split, (other, n), named, hash)
]

-- `FindFile` gives a key exactly where an entry has the name, and then that of the first such entry.
pub find_file_iff :
    (m : Install) (name : Bytes) (key : Key)
    → (find_file m name ≡ some key) ↔ (
        (before after : List Entry) × (e : Entry) × (m.entries ≡ before ++ (e ∷ after))
        × NotNamed name before
        × (e.name ≡ name)
        × (e.hash ≡ key))
unfolding find_file
find_file_iff m name key = (
  find_entry-some name m.entries key,
  λ (before, after, e, split, n, named, hash).
      ap (λ es. find_entry es name) split
      ∙ find_entry-first name before after e n named
      ∙ ap some hash,
)

-- Copying a tag of two files or more whose bitmask is as `Tag::Tag` allocates it, a byte for each
-- eight files, reads behind the bitmask; moving it gives the tag.
pub copy_tag_overruns :
    (t : Tag)
    → length t.bitmask ≡ (t.bitmask_size + 7) / 8
    → 2 ≤ t.bitmask_size
    → (copy_tag t ≡ fault undefined) × ((move_tag t).0 ≡ t)
unfolding copy_tag move_tag
copy_tag_overruns t e h = (rw (lt→ltb (length t.bitmask) t.bitmask_size (omega arith)), refl)

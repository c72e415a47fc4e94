-- ===== src/Tact/Data/Install.antt =====
-- src/libtactmon/libtactmon/tact/data/Install.hpp and Install.cpp: the manifest of installed files.
pub mod Lookup
use tactmon.Prelude.{
  ℕ, zero, suc, ◌+◌, ◌/◌, ◌%◌, ◌^◌, Bool, false, not, Option, none, some, List, [], ◌∷◌, Bytes, ltb,
  if◌then◌else◌, length, take, equal, undefined, Result, ok, fault, ◌>>=◌,
}
use tactmon.Io.Readable.{ReadableStream, Read, read_value, read_bytes, read_c_string}
use tactmon.Tact.Key.{Key, key_of}
use tactmon.Utility.Endian.{little, big}

-- `bitmask_size` counts files, and `bitmask` is an array of a byte for each eight of them.
pub record Tag : Type 0 where
  pub name : Bytes
  pub kind : ℕ
  pub bitmask_size : ℕ
  pub bitmask : Bytes

pub record Entry : Type 0 where
  pub name : Bytes
  pub file_size : ℕ
  pub hash : Key

pub record Install : Type 0 where
  pub tags : List Tag
  pub entries : List Entry

-- `Tag(Tag const&)` and the copy assignment: `bitmask_size` bytes are copied.
unfoldable pub copy_tag : Tag → Result Tag
copy_tag other =
    if ltb (length other.bitmask) other.bitmask_size
    then fault undefined
    else ok (record other { bitmask = take other.bitmask_size other.bitmask })

-- `Tag(Tag&&)`: the new tag, and what is left of the other.
unfoldable pub move_tag : Tag → Tag × Tag
move_tag other = (other, record other { bitmask_size = 0; bitmask = [] })

-- `Tag::Matches` is disabled in the source.
unfoldable pub matches : Tag → ℕ → Bool
matches tag index = false

module _ {S : Type 0} ⦃r : ReadableStream S⦄ (fuel : ℕ) where
  -- `Tag::Tag`: the type is kept in eight of its sixteen bits.
  unfoldable pub read_tag : ℕ → Read S Tag
  read_tag files s = do
    (name, s₁) ← read_c_string fuel s
    (kind, s₂) ← read_value 2 big s₁
    (bitmask, s') ← read_bytes ((files + 7) / 8) s₂
    let tag : Tag = record {
      name = name;
      kind = kind % 2 ^ 8;
      bitmask_size = files;
      bitmask = bitmask;
    }
    ok (tag, s')

  unfoldable pub read_tags : ℕ → ℕ → Read S (List Tag)
  read_tags zero files s = ok ([], s)
  read_tags (suc n) files s = do
    (tag, s₁) ← read_tag files s
    (tags, s') ← read_tags n files s₁
    ok (tag ∷ tags, s')

  -- `Entry::Entry`: the hash is taken from the data at the cursor.
  unfoldable pub read_entry : ℕ → Read S Entry
  read_entry hash_size s = do
    (name, s₁) ← read_c_string fuel s
    unread ← r.data_span s₁
    let size = (do
      (file_size, s') ← read_value 4 big (r.skip_read s₁ hash_size)
      let entry : Entry = record {
        name = name;
        file_size = file_size;
        hash = key_of (take hash_size unread);
      }
      ok (entry, s'))
    if ltb (length unread) hash_size then fault undefined else size

  unfoldable pub read_entries : ℕ → ℕ → Read S (List Entry)
  read_entries zero hash_size s = ok ([], s)
  read_entries (suc n) hash_size s = do
    (entry, s₁) ← read_entry hash_size s
    (entries, s') ← read_entries n hash_size s₁
    ok (entry ∷ entries, s')

  -- `Parse`: neither the signature nor the version is looked at.
  unfoldable pub parse : S → Result (Option Install)
  parse s =
      let manifest = (do
        (signature, s₁) ← read_value 2 big s
        (version, s₂) ← read_value 1 little s₁
        (hash_size, s₃) ← read_value 1 little s₂
        (tag_count, s₄) ← read_value 2 big s₃
        (entry_count, s₅) ← read_value 4 big s₄
        (tags, s₆) ← read_tags tag_count entry_count s₅
        (entries, s₇) ← read_entries entry_count hash_size s₆
        ok (some (record { tags = tags; entries = entries }))) in
      if not (r.can_read s 10) then ok none else manifest

-- `FindFile`: `std::find_if` by the name.
unfoldable pub find_entry : List Entry → Bytes → Option Key
find_entry [] name = none
find_entry (e ∷ es) name = if equal e.name name then some e.hash else find_entry es name

unfoldable pub find_file : Install → Bytes → Option Key
unfolding find_entry
find_file manifest name = find_entry manifest.entries name

-- `size`.
abbrev pub size : Install → ℕ
size manifest = length manifest.entries

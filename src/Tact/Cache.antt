-- ===== src/Tact/Cache.antt =====
-- src/libtactmon/libtactmon/tact/Cache.hpp and Cache.cpp: copies of remote files on disk. The file
-- system is a parameter, with what its files hold after one is written or removed; so is how
-- `std::filesystem::path` joins two paths. That directories can be created is left to it.
use tactmon.Prelude.{
  ◌≡◌, Bool, true, ◌||◌, Option, none, some, [], ◌∷◌, Bytes, ◌==◌, if◌then◌else◌, undefined, hangs,
  throws, Result, ok, fault,
}

-- `same` is whether two paths lead to one file; `content` is what a regular file holds.
pub record FileSystem (F : Type 0) : Type 0 where
  pub same : Bytes → Bytes → Bool
  pub content : Bytes → F → Option Bytes
  pub write : Bytes → Bytes → F → F
  pub remove : Bytes → F → F
  pub same-refl : (path : Bytes) → same path path ≡ true
  pub content-write :
      (path other text : Bytes) (f : F)
      → content other (write path text f) ≡ (if same path other then some text else content other f)
  pub content-remove :
      (path other : Bytes) (f : F)
      → content other (remove path f) ≡ (if same path other then none else content other f)

-- `GetAbsolutePath`: one leading separator is dropped.
unfoldable pub without_separator : Bytes → Bytes
without_separator [] = []
without_separator (c ∷ cs) = if (c == b'/') || (c == b'\\') then cs else c ∷ cs

unfoldable pub get_absolute_path : (Bytes → Bytes → Bytes) → Bytes → Bytes → Bytes
unfolding without_separator
get_absolute_path join root relative = join root (without_separator relative)

module _ {F : Type 0} (fs : FileSystem F) (join : Bytes → Bytes → Bytes) (root : Bytes) where
  -- `Delete`.
  unfoldable pub delete : Bytes → F → F
  unfolding get_absolute_path
  delete path = fs.remove (get_absolute_path join root path)

  -- The `catch` of `Resolve`: what throws deletes the file.
  unfoldable pub caught : {A : Type 0} → Bytes → Result (Option A) → F → Result (Option A × F)
  unfolding delete
  caught path (ok o) f = ok (o, f)
  caught path (fault throws) f = ok (none, delete path f)
  caught path (fault undefined) f = fault undefined
  caught path (fault hangs) f = fault hangs

  -- `Resolve`; the handler is given what the file holds.
  unfoldable pub resolve :
      {A : Type 0} → Bytes → (Bytes → Result (Option A)) → F → Result (Option A × F)
  unfolding caught get_absolute_path
  resolve path handler f = elim (fs.content (get_absolute_path join root path) f) [
    | none ↦ ok (none, f)
    | some text ↦ caught path (handler text) f
  ]

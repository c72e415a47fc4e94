-- ===== src/Tact/Data/Encoding.antt =====
-- src/libtactmon/libtactmon/tact/data/Encoding.hpp and Encoding.cpp: the manifest that maps content
-- keys to encoding keys.
pub mod Lookup
pub mod Entries
use tactmon.Prelude.{
  ℕ, zero, suc, ◌+◌, ◌*◌, ◌%◌, ◌^◌, Bool, not, ◌&&◌, ◌||◌, Option, none, some, List, [], ◌∷◌, Bytes,
  ltb, ◌==◌, if◌then◌else◌, length, take, zeros, is_empty, undefined, hangs, Result, ok, fault,
  ◌>>=◌, size_mod, add64,
}
use tactmon.Io.Readable.{ReadableStream, Read, read_value, read_bytes, read_span}
use tactmon.Tact.Data.FileLocation.{FileLocation}
use tactmon.Tact.Key.{Key, key_of, key_equal}
use tactmon.Utility.Endian.{little, big}

pub record Header : Type 0 where
  pub signature : ℕ
  pub version : ℕ
  pub encoding_key_size : ℕ
  pub content_key_size : ℕ
  pub cekey_page_size : ℕ
  pub spec_page_size : ℕ
  pub cekey_page_count : ℕ
  pub spec_page_count : ℕ
  pub spec_block_size : ℕ

abbrev pub empty_header : Header
empty_header = record {
  signature = 0;
  version = 0;
  encoding_key_size = 0;
  content_key_size = 0;
  cekey_page_size = 0;
  spec_page_size = 0;
  cekey_page_count = 0;
  spec_page_count = 0;
  spec_block_size = 0;
}

-- `CEKeyPageTable`: an entry of a page.
pub record Entry : Type 0 where
  pub key_count : ℕ
  pub file_size : ℕ
  pub ckey : Bytes
  pub ekeys : Bytes

-- `EKeySpecPageTable`, which the constructor of `Encoding` does not read.
pub record SpecEntry : Type 0 where
  pub ekey : Bytes
  pub spec_index : ℕ
  pub file_size : ℕ

pub record Encoding : Type 0 where
  pub header : Header
  pub pages : List (List Entry)

-- `value = (value << 8) | byte` on 64 bits.
unfoldable pub fold_bytes : ℕ → Bytes → ℕ
fold_bytes value [] = value
fold_bytes value (b ∷ bs) = fold_bytes (value * 2 ^ 8 % size_mod + b) bs

-- `explicit operator bool` of an entry.
unfoldable pub is_present : Entry → Bool
is_present e = not (is_empty e.ckey) && not (is_empty e.ekeys)

module _ {S : Type 0} ⦃r : ReadableStream S⦄ where
  -- `ReadUInt40`: the array has no initial value, so a byte that was not read is undefined.
  unfoldable pub read_u40 : Read S ℕ
  unfolding fold_bytes
  read_u40 s = do
    ((bytes, count), s') ← read_span big 1 (zeros 5) s
    if count == 5 then ok (fold_bytes 0 bytes, s') else fault undefined

  -- `Header::Header`.
  unfoldable pub read_header : Read S Header
  read_header s =
      let fields = (do
        (signature, s₁) ← read_value 2 big s
        (version, s₂) ← read_value 1 little s₁
        (ekey_size, s₃) ← read_value 1 little s₂
        (ckey_size, s₄) ← read_value 1 little s₃
        (page_size, s₅) ← read_value 2 big s₄
        (spec_size, s₆) ← read_value 2 big s₅
        (page_count, s₇) ← read_value 4 big s₆
        (spec_count, s₈) ← read_value 4 big s₇
        (unknown, s₉) ← read_value 1 little s₈
        (block_size, s') ← read_value 4 big s₉
        let header : Header = record {
          signature = signature;
          version = version;
          encoding_key_size = ekey_size;
          content_key_size = ckey_size;
          cekey_page_size = page_size * 1024;
          spec_page_size = spec_size * 1024;
          cekey_page_count = page_count;
          spec_page_count = spec_count;
          spec_block_size = block_size;
        }
        ok (header, s')) in
      if not (r.can_read s 22) then ok (empty_header, s) else fields

  -- `CEKeyPageTable::CEKeyPageTable`.
  unfoldable pub read_entry : Header → Read S Entry
  read_entry header s = do
    (key_count, s₁) ← read_value 1 little s
    (file_size, s₂) ← read_u40 s₁
    (ckey, s₃) ← read_bytes header.content_key_size s₂
    let bare : Entry = record {
      key_count = key_count;
      file_size = file_size;
      ckey = ckey;
      ekeys = [];
    }
    let full = (do
      (ekeys, s') ← read_bytes (header.encoding_key_size * key_count) s₃
      ok (record bare { ekeys = ekeys }, s'))
    if ltb 0 (key_count * header.encoding_key_size) then full else ok (bare, s₃)

  -- `EKeySpecPageTable::EKeySpecPageTable`.
  unfoldable pub read_spec_entry : Header → Read S SpecEntry
  read_spec_entry header s =
      let fields = (do
        (ekey, s₁) ← read_bytes header.encoding_key_size s
        (index, s₂) ← read_value 4 big s₁
        (size, s') ← read_u40 s₂
        let entry : SpecEntry = record { ekey = ekey; spec_index = index; file_size = size }
        ok (entry, s')) in
      if not (r.can_read s (header.encoding_key_size + 4 + 5))
      then ok (record { ekey = []; spec_index = 0; file_size = 0 }, s)
      else fields

  -- The loop of `Page::Page`: the entries up to `pageEnd`, or up to one that is not there or that
  -- runs over the end. Each entry takes a byte at least.
  unfoldable pub read_entries : ℕ → Header → ℕ → S → Result (List Entry)
  read_entries zero header page_end s =
      if ltb (r.get_read_cursor s) page_end then fault hangs else ok []
  read_entries (suc fuel) header page_end s =
      let round = (do
        (entry, s') ← read_entry header s
        let more = (do rest ← read_entries fuel header page_end s'; ok (entry ∷ rest))
        if not (is_present entry) || ltb page_end (r.get_read_cursor s') then ok [] else more) in
      if ltb (r.get_read_cursor s) page_end then round else ok []

  -- `Page::Page`, not indexed: the hashes of the page are skipped, its entries are read elsewhere,
  -- and the cursor returns behind the hashes.
  unfoldable pub read_page : ℕ → Header → ℕ → ℕ → Read S (List Entry)
  read_page fuel header page_offset page_end s =
      let s₁ = r.skip_read s (header.content_key_size + 0x10) in
      do
        entries ← read_entries fuel header page_end (r.seek_read s₁ page_offset)
        ok (entries, r.seek_read (r.seek_read s₁ page_offset) (r.get_read_cursor s₁))

  -- The loop over the pages.
  unfoldable pub read_pages : ℕ → ℕ → ℕ → Header → ℕ → S → Result (List (List Entry))
  read_pages fuel zero i header page_start s = ok []
  read_pages fuel (suc n) i header page_start s = do
    let page_offset = add64 page_start (i * header.cekey_page_size)
    let page_end = add64 page_offset header.cekey_page_size
    (entries, s') ← read_page fuel header page_offset page_end s
    rest ← read_pages fuel n (i + 1) header page_start s'
    ok (entries ∷ rest)

  -- `Encoding::Encoding`.
  unfoldable pub parse : ℕ → S → Result Encoding
  parse fuel s = do
    (header, s₁) ← read_header s
    let s₂ = r.skip_read s₁ header.spec_block_size
    let page_start =
        add64 (r.get_read_cursor s₂) (header.cekey_page_count * (0x10 + header.encoding_key_size))
    let whole = (do
      pages ← read_pages fuel header.cekey_page_count 0 header page_start s₂
      ok (record { header = header; pages = pages }))
    if not (header.signature == 0x454e) then ok (record { header = header; pages = [] }) else whole

-- `count`.
unfoldable pub count : List (List Entry) → ℕ
count [] = 0
count (page ∷ pages) = length page + count pages

-- `entry == contentKey`, on the key that `ckey` makes of the entry.
unfoldable pub is_for : Header → Key → Entry → Bool
is_for header key e = key_equal (key_of (take header.content_key_size e.ckey)) key

abbrev pub location_of : Header → Entry → FileLocation
location_of header e = record {
  file_size = e.file_size;
  key_count = e.key_count;
  keys = take (e.key_count * header.encoding_key_size) e.ekeys;
}

-- The two loops of `FindFile`.
unfoldable pub find_in_page : Header → Key → List Entry → Option FileLocation
unfolding is_for
find_in_page header key [] = none
find_in_page header key (e ∷ es) =
    if is_for header key e then some (location_of header e) else find_in_page header key es

unfoldable pub find_in_pages : Header → Key → List (List Entry) → Option FileLocation
unfolding find_in_page
find_in_pages header key [] = none
find_in_pages header key (page ∷ pages) = elim (find_in_page header key page) [
  | some l ↦ some l
  | none ↦ find_in_pages header key pages
]

unfoldable pub find_file : Encoding → Key → Option FileLocation
unfolding find_in_pages
find_file e key = find_in_pages e.header key e.pages

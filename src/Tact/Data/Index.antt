-- ===== src/Tact/Data/Index.antt =====
-- src/libtactmon/libtactmon/tact/data/Index.hpp and Index.cpp: the index of an archive. OpenSSL's
-- MD5 is the parameter `md5`.
pub mod Lookup
pub mod Search
use tactmon.Prelude.{
  ℕ, zero, suc, ◌+◌, ◌*◌, ◌/◌, Bool, true, not, ◌&&◌, Option, none, some, List, [], ◌∷◌, ◌++◌,
  Bytes, ltb, ◌==◌, if◌then◌else◌, length, take, drop, zeros, equal, undefined, hangs, Result, ok,
  fault, ◌>>=◌, add64, sub64,
}
use tactmon.Io.Readable.{ReadableStream, Read, read_value}
use tactmon.Tact.Key.{Key}
use tactmon.Tact.Data.Encoding.{fold_bytes}
use tactmon.Utility.Endian.{little}
use tactmon.Utility.Hex.{unhex}

pub record Entry : Type 0 where
  pub key_offset : ℕ
  pub size : ℕ
  pub offset : ℕ

pub record Index : Type 0 where
  pub name : Bytes
  pub key_size : ℕ
  pub key_buffer : Bytes
  pub entries : List Entry

-- What the footer says of the blocks.
pub record Footer : Type 0 where
  pub checksum_size : ℕ
  pub block_size_kb : ℕ
  pub offset_bytes : ℕ
  pub size_bytes : ℕ
  pub key_size : ℕ

abbrev pub footer_size : ℕ → ℕ
footer_size checksum_size = checksum_size * 2 + 8 + 4

abbrev entry_size : Footer → ℕ
entry_size f = f.key_size + f.size_bytes + f.offset_bytes

-- `subspan(0, n)` of the data at the cursor.
unfoldable pub front : Bytes → ℕ → Result Bytes
front unread n = if ltb (length unread) n then fault undefined else ok (take n unread)

unfoldable pub all_zero : Bytes → Bool
all_zero [] = true
all_zero (b ∷ bs) = b == 0 && all_zero bs

module _ {S : Type 0} ⦃r : ReadableStream S⦄ where
  -- The loop that looks for the size of the checksums, downwards. Its `continue` changes nothing of
  -- what the next round tests.
  unfoldable pub find_checksum_size : (Bytes → Bytes) → Bytes → ℕ → Read S ℕ
  unfolding front
  find_checksum_size md5 hash zero s = ok (0, s)
  find_checksum_size md5 hash (suc k) s =
      let n = footer_size (suc k) in
      let s' = r.seek_read s (sub64 (r.get_length s) n) in
      let round = (do
        unread ← r.data_span s'
        footer ← front unread n
        let next = find_checksum_size md5 hash k s'
        if equal hash (md5 footer) then ok (suc k, s') else next) in
      if not (r.can_read s' n) then fault hangs else round

  -- The fields of the footer that are used; the version, two bytes, the stored checksum size and
  -- the number of elements are read and dropped.
  unfoldable pub read_footer : ℕ → Read S Footer
  unfolding front
  read_footer checksum_size s = do
    let s₀ = r.seek_read s (sub64 (r.get_length s) (footer_size checksum_size))
    unread ← r.data_span s₀
    toc_hash ← front unread checksum_size
    (version, s₁) ← read_value 1 little (r.skip_read s₀ checksum_size)
    (b₁, s₂) ← read_value 1 little s₁
    (b₂, s₃) ← read_value 1 little s₂
    (block_size_kb, s₄) ← read_value 1 little s₃
    (offset_bytes, s₅) ← read_value 1 little s₄
    (size_bytes, s₆) ← read_value 1 little s₅
    (key_size, s₇) ← read_value 1 little s₆
    (stored, s₈) ← read_value 1 little s₇
    (elements, s₉) ← read_value 4 little s₈
    let footer : Footer = record {
      checksum_size = checksum_size;
      block_size_kb = block_size_kb;
      offset_bytes = offset_bytes;
      size_bytes = size_bytes;
      key_size = key_size;
    }
    ok (footer, s₉)

  -- `Entry::Entry`.
  unfoldable pub read_entry : Footer → ℕ → S → Result Entry
  unfolding front fold_bytes
  read_entry f key_offset s = do
    unread ← r.data_span s
    bytes ← front unread (f.size_bytes + f.offset_bytes)
    ok (record {
      key_offset = key_offset;
      size = fold_bytes 0 (take f.size_bytes bytes);
      offset = fold_bytes 0 (take f.offset_bytes (drop f.size_bytes bytes));
    })

  -- The loop over the entries of a block: the key buffer and the entries so far.
  unfoldable pub read_block :
      ℕ → ℕ → Footer → ℕ → S → Bytes × List Entry → Result (Bytes × List Entry)
  unfolding front all_zero
  read_block zero j f start s found = ok found
  read_block (suc n) j f start s (keys, entries) = do
    let s₁ = r.seek_read s (add64 start (j * entry_size f))
    unread ← r.data_span s₁
    key ← front unread f.key_size
    found ←
        (if all_zero key then ok (keys, entries) else (do
          entry ← read_entry f (length keys) (r.skip_read s₁ f.key_size)
          ok (keys ++ key, entries ++ (entry ∷ []))))
    read_block n (j + 1) f start s₁ found

  -- The loop over the blocks: one whose checksum does not fit is passed over.
  unfoldable pub read_blocks :
      (Bytes → Bytes) → ℕ → ℕ → ℕ → Footer → S → Bytes × List Entry → Result (Bytes × List Entry)
  unfolding front
  read_blocks md5 zero i block_count f s found = ok found
  read_blocks md5 (suc n) i block_count f s found = do
    let block_size = 1024 * f.block_size_kb
    let s₁ = r.seek_read s (i * block_size)
    unread ← r.data_span s₁
    block ← front unread block_size
    let s₂ =
        r.seek_read s₁ (block_count * block_size + block_count * f.key_size + i * f.checksum_size)
    sums ← r.data_span s₂
    checksum ← front sums f.checksum_size
    found' ←
        (if not (equal (take f.checksum_size (md5 block)) checksum)
          then ok found
          else read_block (block_size / entry_size f) 0 f (i * block_size) s₂ found)
    read_blocks md5 n (i + 1) block_count f s₂ found'

  -- `Index::Index`. An entry size of 0 is a division by zero.
  unfoldable pub parse : (Bytes → Bytes) → Bytes → S → Result Index
  parse md5 hash s = do
    hash_bytes ← unhex hash (zeros (length hash / 2))
    (checksum_size, s₁) ← find_checksum_size md5 hash_bytes 16 s
    let blocks = (do
      (f, s₂) ← read_footer checksum_size s₁
      let block_size = 1024 * f.block_size_kb
      let block_count =
          sub64 (r.get_length s₂) (footer_size checksum_size)
          / (block_size + (f.key_size + checksum_size))
      (keys, entries) ←
          (if entry_size f == 0
            then fault undefined
            else read_blocks md5 block_count 0 block_count f s₂ ([], []))
      ok (record { name = hash; key_size = f.key_size; key_buffer = keys; entries = entries }))
    if checksum_size == 0
        then ok (record { name = hash; key_size = 0; key_buffer = []; entries = [] })
        else blocks

-- `Entry::key`.
unfoldable pub key_of_entry : Index → Entry → Bytes
key_of_entry index e = take index.key_size (drop e.key_offset index.key_buffer)

-- `operator []`: `std::find_if` by the key.
unfoldable pub find_entry : Index → Bytes → List Entry → Option Entry
unfolding key_of_entry
find_entry index key [] = none
find_entry index key (e ∷ es) =
    if equal (key_of_entry index e) key then some e else find_entry index key es

unfoldable pub lookup : Index → Key → Option Entry
unfolding find_entry
lookup index key = find_entry index key.bytes index.entries

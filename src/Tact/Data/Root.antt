-- ===== src/Tact/Data/Root.antt =====
-- src/libtactmon/libtactmon/tact/data/product/wow/Root.hpp and Root.cpp: the root manifest of World
-- of Warcraft. The blocks are parsed in a thread pool, each from its own part of the data, and
-- collected in order: here they are parsed one after the other. `JenkinsHash` is a parameter.
pub mod Find
use tactmon.Prelude.{
  ◌>>=◌, ℕ, zero, suc, ◌+◌, ◌-◌, ◌*◌, ◌/◌, ◌%◌, bit_and, Bool, true, false, not, ◌||◌, Option, none,
  some, List, [], ◌∷◌, Bytes, ltb, ◌==◌, if◌then◌else◌, length, get_elem?, take, drop, undefined,
  hangs, Result, ok, fault, u32_mod,
}
use tactmon.Io.Readable.{ReadableStream, Read, read_value}
use tactmon.Io.Span.{SpanStream, span_readable}
use tactmon.Tact.Data.Index.{front}
use tactmon.Tact.Key.{Key, key_of}
use tactmon.Utility.Endian.{little, big, of_bytes, to_endianness}

pub record Entry : Type 0 where
  pub content_key : Key
  pub file_data_id : ℕ
  pub name_hash : ℕ

pub record Block : Type 0 where
  pub content_flags : ℕ
  pub locale_flags : ℕ
  pub entries : List Entry

-- `PageInfo`.
pub record PageInfo : Type 0 where
  pub num_records : ℕ
  pub content_flags : ℕ
  pub locale_flags : ℕ
  pub part : Bytes

-- `ContentFlags::NoNameHash`.
abbrev pub no_name_hash : ℕ
no_name_hash = 0x10000000

-- `!canSkip || (flags & NoNameHash) == 0`.
unfoldable pub has_name_hash : Bool → ℕ → Bool
has_name_hash can_skip flags = not can_skip || bit_and flags no_name_hash == 0

-- `fileDataID += fileDataIDs[i] + 1` on 32 bits.
unfoldable pub next_id : ℕ → ℕ → ℕ
next_id id delta = (id + (to_endianness 4 delta little little + 1)) % u32_mod

-- `stream.Data<uint32_t>()[i]` of the data at the start.
abbrev delta_at : Bytes → ℕ → ℕ
delta_at deltas i = of_bytes (take 4 (drop (4 * i) deltas))

-- The loop of the interleaved layout: a key and a hash for each record.
unfoldable pub interleaved : ℕ → ℕ → Bytes → ℕ → ℕ → SpanStream → Result (List Entry)
unfolding front next_id
interleaved zero i deltas id key_size s = ok []
interleaved (suc n) i deltas id key_size s = do
  let id' = next_id id (delta_at deltas i)
  unread ← span_readable.data_span s
  key ← front unread key_size
  (hash, s') ← read_value 8 little (span_readable.skip_read s key_size)
  rest ← interleaved n (i + 1) deltas id' key_size s'
  let entry : Entry = record { content_key = key_of key; file_data_id = id'; name_hash = hash }
  ok (entry ∷ rest)

-- The loops of the other layout: all keys, and then all hashes, or none of them.
unfoldable pub separate : Bool → ℕ → ℕ → Bytes → Bytes → ℕ → ℕ → SpanStream → Result (List Entry)
unfolding next_id
separate hashed zero i deltas keys id key_size s = ok []
separate hashed (suc n) i deltas keys id key_size s = do
  let id' = next_id id (delta_at deltas i)
  (hash, s') ← (if hashed then read_value 8 little s else ok (0, s))
  rest ← separate hashed n (i + 1) deltas keys id' key_size s'
  let entry : Entry = record {
    content_key = key_of (take key_size (drop (i * key_size) keys));
    file_data_id = id';
    name_hash = hash;
  }
  ok (entry ∷ rest)

-- `ParseBlock`. The first id is one more than -1 and the first difference.
unfoldable pub parse_block : PageInfo → ℕ → Bool → Bool → Result Block
unfolding front
parse_block page key_size interleave can_skip =
    let s : SpanStream = record { bytes = page.part; cursor = 0 } in
    let n = page.num_records in
    do
      unread ← span_readable.data_span s
      deltas ← (if ltb (length unread / 4) n then fault undefined else ok (take (4 * n) unread))
      let s₁ = span_readable.skip_read s (n * 4)
      let apart = (do
        rest ← span_readable.data_span s₁
        keys ← front rest (n * key_size)
        separate (has_name_hash can_skip page.content_flags) n 0 deltas keys (u32_mod - 1) key_size
            (span_readable.skip_read s₁ (length keys)))
      entries ← (if interleave then interleaved n 0 deltas (u32_mod - 1) key_size s₁ else apart)
      ok (record {
        content_flags = page.content_flags;
        locale_flags = page.locale_flags;
        entries = entries;
      })

-- `length` of a page in `Parse`.
unfoldable pub page_length : Bool → Bool → ℕ → ℕ → ℕ → ℕ
page_length interleave can_skip key_size flags n =
    if interleave
    then 4 * n + key_size * n + 8 * n
    else if has_name_hash can_skip flags
    then 4 * n + key_size * n + 8 * n
    else 4 * n + key_size * n

abbrev with_block : Block → Option (List Block) → Option (List Block)
with_block block none = none
with_block block (some blocks) = some (block ∷ blocks)

module _ {S : Type 0} ⦃r : ReadableStream S⦄ where
  -- The loop of `Parse` over the pages; a page has twelve bytes at least.
  unfoldable pub read_blocks : ℕ → Bool → Bool → ℕ → S → Result (Option (List Block))
  unfolding front
  read_blocks zero interleave can_skip key_size s =
      if ltb (r.get_read_cursor s) (r.get_length s) then fault hangs else ok (some [])
  read_blocks (suc fuel) interleave can_skip key_size s =
      let page = (do
        (n, s₁) ← read_value 4 little s
        (flags, s₂) ← read_value 4 little s₁
        (locales, s₃) ← read_value 4 little s₂
        let size = page_length interleave can_skip key_size flags n
        let body = (do
          unread ← r.data_span s₃
          part ← front unread size
          block ←
              parse_block
                (record {
                  num_records = n;
                  content_flags = flags;
                  locale_flags = locales;
                  part = part;
                })
                key_size interleave can_skip
          rest ← read_blocks fuel interleave can_skip key_size (r.skip_read s₃ size)
          ok (with_block block rest))
        if not (r.can_read s₃ size) then ok none else body) in
      let round = if not (r.can_read s 12) then ok none else page in
      if ltb (r.get_read_cursor s) (r.get_length s) then round else ok (some [])

  -- `Root::Parse`.
  unfoldable pub parse : ℕ → ℕ → S → Result (Option (List Block))
  parse fuel key_size s =
      let magical = (do
        (magic, s₁) ← read_value 4 little s
        let counted = (do
          (total, s₂) ← read_value 4 little s₁
          (named, s₃) ← read_value 4 little s₂
          read_blocks fuel false (not (total == named)) key_size s₃)
        let headed = if not (r.can_read s₁ 8) then ok none else counted
        if magic == 0x4d465354 then headed else read_blocks fuel true false key_size s₁) in
      if not (r.can_read s 4) then ok none else magical

-- `size`.
unfoldable pub size : List Block → ℕ
size [] = 0
size (b ∷ bs) = length b.entries + size bs

-- The comparison of `std::lower_bound` at an index.
unfoldable pub below_at : ℕ → List Entry → ℕ → Bool
below_at fdid es i = elim (get_elem? es i) [ none ↦ false | some e ↦ ltb e.file_data_id fdid ]

-- `std::lower_bound`, which halves a range until it is empty: the index that is left. A round takes
-- one entry at least, so a round for each entry is enough.
unfoldable pub lower_loop : ℕ → ℕ → List Entry → ℕ → ℕ → ℕ
unfolding below_at
lower_loop zero fdid es first count = first
lower_loop (suc fuel) fdid es first count =
    let half = count / 2 in
    let below = below_at fdid es (first + half) in
    let rest =
      lower_loop fuel fdid es (if below then first + half + 1 else first)
        (if below then count - (half + 1) else half) in
    if count == 0 then first else rest

-- The entry at that index, or nothing at the end.
unfoldable pub lower_bound : ℕ → List Entry → Option Entry
unfolding lower_loop
lower_bound fdid es = get_elem? es (lower_loop (length es) fdid es 0 (length es))

-- `FindFile` by the id: the entry that `lower_bound` gives is not compared with the id.
unfoldable pub find_by_id : ℕ → List Block → Option Key
unfolding lower_bound
find_by_id fdid [] = none
find_by_id fdid (b ∷ bs) = elim (lower_bound fdid b.entries) [
  | some e ↦ some e.content_key
  | none ↦ find_by_id fdid bs
]

-- `FindFile` by the name, with the hash of the name.
unfoldable pub find_hash : ℕ → List Entry → Option Key
find_hash hash [] = none
find_hash hash (e ∷ es) = if e.name_hash == hash then some e.content_key else find_hash hash es

unfoldable pub find_by_name : (Bytes → ℕ) → Bytes → List Block → Option Key
unfolding find_hash
find_by_name jenkins name [] = none
find_by_name jenkins name (b ∷ bs) = elim (find_hash (jenkins name) b.entries) [
  | some k ↦ some k
  | none ↦ find_by_name jenkins name bs
]

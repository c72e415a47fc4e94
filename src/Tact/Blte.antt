-- ===== src/Tact/Blte.antt =====
-- src/libtactmon/libtactmon/tact/BLTE.hpp and BLTE.cpp: archives in chunks. OpenSSL's MD5 is the
-- parameter `md5`, and zlib is the record `Zlib`.
pub mod Chunks
pub mod Validate
use tactmon.Prelude.{
  ℕ, zero, suc, ◌%◌, ◌^◌, Bool, true, false, not, Option, none, some, List, [], ◌∷◌, ◌++◌, Bytes,
  ltb, ◌==◌, if◌then◌else◌, length, take, drop, equal, undefined, hangs, Result, ok, fault, ◌>>=◌,
  add64,
}
use tactmon.Io.Growable.{GrowableMemoryStream, empty_stream, growable_readable}
use tactmon.Io.Readable.{ReadableStream, Read, read_value, read_bytes}
use tactmon.Io.Writable.{write_bytes}
use tactmon.Tact.Key.{Key, key_equal_range}
use tactmon.Utility.Endian.{little, big, byteswap, to_bytes}

pub record ChunkHeader : Type 0 where
  pub compressed_size : ℕ
  pub decompressed_size : ℕ
  pub checksum : Bytes
  pub offset : ℕ

-- The results of `inflate` that the loop tells apart: `Z_STREAM_END`, another that is not
-- negative, a negative one.
pub data Status : Type 0 where
  stream_end progress failed : Status

-- One call of `inflate`: its result, what it has not taken of the input, what it put out, and the
-- stream afterwards.
pub record Inflated (Z : Type 0) : Type 0 where
  pub status : Status
  pub rest : Bytes
  pub output : Bytes
  pub next : Z

-- zlib: `inflateInit` may fail; `inflate` is given the input and the room for the output.
pub record Zlib (Z : Type 0) : Type 0 where
  pub init : Option Z
  pub inflate : Z → Bytes → ℕ → Inflated Z

abbrev pub buffer_size : ℕ
buffer_size = 8192

-- 'BLTE'.
abbrev pub blte_magic : ℕ
blte_magic = 0x424c5445

-- The bytes that `UpdateData(byteswap(x))` hands to the digest, for a word of `k` bytes.
abbrev pub digested : ℕ → ℕ → Bytes
digested k x = to_bytes k (byteswap k x)

module _ {Z : Type 0} (zlib : Zlib Z) where
  -- The loop around `inflate`, with the flag that `LoadChunk` returns.
  unfoldable pub inflate_loop :
      ℕ → Status → Z → Bytes → GrowableMemoryStream → Result (Bool × GrowableMemoryStream)
  inflate_loop fuel stream_end z input buffer = ok (true, buffer)
  inflate_loop fuel failed z [] buffer = ok (true, buffer)
  inflate_loop fuel progress z [] buffer = ok (true, buffer)
  inflate_loop zero status z (b ∷ bs) buffer = fault hangs
  inflate_loop (suc fuel) status z (b ∷ bs) buffer =
      let r = zlib.inflate z (b ∷ bs) buffer_size in
      let written = (do
        (count, buffer') ← write_bytes little r.output buffer
        let more = inflate_loop fuel r.status r.next r.rest buffer'
        if not (count == length r.output) then ok (false, buffer') else more) in
      elim r.status [ failed ↦ ok (false, buffer) | _ ↦ written ]

  unfoldable pub inflate_chunk :
      ℕ → Bytes → GrowableMemoryStream → Result (Bool × GrowableMemoryStream)
  inflate_chunk fuel input buffer = elim zlib.init [
    | none ↦ ok (false, buffer)
    | some z ↦ inflate_loop fuel progress z input buffer
  ]

module _ {S : Type 0} ⦃r : ReadableStream S⦄ where
  -- The loop over the chunk headers. `previous` is the end of the chunk before, or `headerSize`.
  -- The bytes for the digest are given with the headers; the sizes are hashed as `std::size_t`.
  unfoldable pub read_headers : ℕ → ℕ → Read S (List ChunkHeader × Bytes)
  read_headers zero previous s = ok (([], []), s)
  read_headers (suc n) previous s = do
    (compressed, s₁) ← read_value 4 big s
    (decompressed, s₂) ← read_value 4 big s₁
    (checksum, s₃) ← read_bytes 16 s₂
    ((chunks, hashed), s') ← read_headers n (add64 previous compressed) s₃
    let chunk : ChunkHeader = record {
      compressed_size = compressed;
      decompressed_size = decompressed;
      checksum = checksum;
      offset = previous;
    }
    ok (
      (chunk ∷ chunks, digested 8 compressed ++ (digested 8 decompressed ++ (checksum ++ hashed))),
      s',
    )

module _ {Z : Type 0} (zlib : Zlib Z) where
  -- The switch of `LoadChunk` on `chunkSpan[0]`; 'F' is not implemented in the source.
  unfoldable pub load_mode : ℕ → Bytes → GrowableMemoryStream → Result (Bool × GrowableMemoryStream)
  load_mode fuel [] buffer = fault undefined
  load_mode fuel (mode ∷ body) buffer =
      if mode == b'N'
      then (do
        (count, buffer') ← write_bytes little body buffer
        ok (count == length body, buffer'))
      else if mode == b'Z'
      then inflate_chunk zlib fuel body buffer
      else ok (false, buffer)

-- `*ekey != checksum`, where a key is given.
unfoldable pub mismatch : Option Key → Bytes → Bool
mismatch none digest = false
mismatch (some key) digest = not (key_equal_range key digest)

module _ (md5 : Bytes → Bytes) {Z : Type 0} (zlib : Zlib Z) {S : Type 0} ⦃r : ReadableStream S⦄
    (fuel : ℕ) where
  -- `LoadChunk`.
  unfoldable pub load_chunk :
      ChunkHeader → S → GrowableMemoryStream → Result (Bool × GrowableMemoryStream)
  load_chunk chunk s buffer =
      let outside = ltb (r.get_length s) (add64 (r.get_read_cursor s) chunk.compressed_size) in
      if outside then ok (false, buffer) else (do
        unread ← r.data_span s
        let span = take chunk.compressed_size unread
        if ltb (length unread) chunk.compressed_size
            then fault undefined
            else if not (equal (md5 span) chunk.checksum)
            then ok (false, buffer)
            else load_mode zlib fuel span buffer)

  -- The loop over the chunks: nothing where one of them fails.
  unfoldable pub load_chunks :
      List ChunkHeader → S → GrowableMemoryStream → Result (Option GrowableMemoryStream)
  load_chunks [] s buffer = ok (some buffer)
  load_chunks (chunk ∷ chunks) s buffer = do
    let s' = r.seek_read s chunk.offset
    (loaded, buffer') ← load_chunk chunk s' buffer
    elim loaded [ false ↦ ok none | true ↦ load_chunks chunks s' buffer' ]

  -- `_Parse`: the data buffer of the archive.
  unfoldable pub parse_archive : Option Key → Option Key → S → Result (Option GrowableMemoryStream)
  parse_archive ekey ckey s = do
    (magic, s₁) ← read_value 4 big s
    let archive = (do
      (header_size, s₂) ← read_value 4 big s₁
      (flags_count, s₃) ← read_value 4 big s₂
      ((chunks, hashed), s₄) ← read_headers (flags_count % 2 ^ 24) header_size s₃
      let header =
          digested 4 magic ++ (digested 4 header_size ++ (digested 4 flags_count ++ hashed))
      let validated = (do
        buffer ← load_chunks chunks s₄ empty_stream
        ok (elim buffer [
          | none ↦ none
          | some b ↦ if mismatch ckey (md5 (drop b.read_cursor b.bytes)) then none else some b
        ]))
      if mismatch ekey (md5 header) then ok none else validated)
    if magic == blte_magic then archive else ok none

  -- The overloads of `Parse`.
  unfoldable pub parse_validated : Key → Key → S → Result (Option GrowableMemoryStream)
  parse_validated ekey ckey = parse_archive (some ekey) (some ckey)

  unfoldable pub parse : S → Result (Option GrowableMemoryStream)
  parse = parse_archive none none

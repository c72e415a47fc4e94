-- ===== src/Tact/Blte/Validate.antt =====
-- What an archive that `LoadChunk` and `_Parse` accept has been checked for.
use tactmon.Prelude.{
  ℕ, ◌%◌, ◌^◌, ◌≡◌, refl, Bool, true, false, Option, none, some, List, [], ◌∷◌, ◌++◌, arith, Bytes,
  ltb, if◌then◌else◌, length, take, drop, Result, ok, ◌>>=◌,
}
use tactmon.Utility.Endian.{big}
use tactmon.Io.Growable.{GrowableMemoryStream, empty_stream}
use tactmon.Io.Readable.{ReadableStream, read_value}
use tactmon.Tact.Blte.{ChunkHeader, Zlib, blte_magic, digested, read_headers, load_mode}
use tactmon.Tact.Key.{Key, key_equal_range}

abbrev pub Loaded : Type 0
Loaded = Result (Bool × GrowableMemoryStream)

kept :
    {A : Type 0} (c : Bool) (a : A) (r : Result (Option A))
    → (if c then r else ok none) ≡ ok (some a)
    → (c ≡ true) × (r ≡ ok (some a))
kept true a r h = (refl, h)
kept false a r h = absurd (grind arith)

module _ (md5 : Bytes → Bytes) {Z : Type 0} (zlib : Zlib Z) {S : Type 0} ⦃r : ReadableStream S⦄
    (fuel : ℕ) where
  -- A chunk at the cursor of a stream: the bytes that its header announces are there, their digest is
  -- the checksum of the header, and decoding them leads from one buffer to the other.
  pub record Checked (chunk : ChunkHeader) (s : S) (before after : GrowableMemoryStream)
      : Type 0 where
    pub unread : Bytes
    pub is_unread : r.data_span s ≡ ok unread
    pub fits : ltb (length unread) chunk.compressed_size ≡ false
    pub digest : md5 (take chunk.compressed_size unread) ≡ chunk.checksum
    pub decoded : load_mode zlib fuel (take chunk.compressed_size unread) before ≡ ok (true, after)

  -- The chunks, each at its own offset, one behind the other.
  abbrev pub Chain : List ChunkHeader → S → GrowableMemoryStream → GrowableMemoryStream → Type 0
  Chain [] s before after = before ≡ after
  Chain (chunk ∷ chunks) s before after =
      (between : GrowableMemoryStream) × Checked chunk (r.seek_read s chunk.offset) before between
      × Chain chunks (r.seek_read s chunk.offset) between after

  -- An archive whose header and contents are those of the two keys: the words that were read, the
  -- chunks of the header, the digest of the header, the chunks' digests, and that of the contents.
  pub record Accepted (ekey ckey : Key) (s : S) (b : GrowableMemoryStream) : Type 0 where
    pub header_size : ℕ
    pub flags_count : ℕ
    pub chunks : List ChunkHeader
    pub hashed : Bytes
    pub s₁ : S
    pub s₂ : S
    pub s₃ : S
    pub s₄ : S
    pub magic_read : read_value 4 big s ≡ ok (blte_magic, s₁)
    pub size_read : read_value 4 big s₁ ≡ ok (header_size, s₂)
    pub count_read : read_value 4 big s₂ ≡ ok (flags_count, s₃)
    pub headers_read :
        read_headers (flags_count % 2 ^ 24) header_size s₃ ≡ ok ((chunks, hashed), s₄)
    pub header_key :
        key_equal_range ekey (
          md5 (
            digested 4 blte_magic
            ++ (digested 4 header_size ++ (digested 4 flags_count ++ hashed))))
        ≡ true
    pub chain : Chain chunks s₄ empty_stream b
    pub contents_key : key_equal_range ckey (md5 (drop b.read_cursor b.bytes)) ≡ true

-- ===== src/Tact/Blte/Chunks.antt =====
-- The chunks that are stored as they are, mode 'N'.
use tactmon.Prelude.{
  ℕ, suc, ◌+◌, ◌≤◌, ◌<◌, min, ◌≡◌, refl, sym, ◌∙◌, true, false, some, List, [], ◌∷◌, ◌++◌, arith,
  Bytes, ltb, leb, le→ltb, le→leb, ==_iff, length, take, drop, equal_iff, length-drop, ok, add64,
}
use mathlib.Core.List.{append_assoc, append-nil}
use tactmon.Io.Growable.{GrowableMemoryStream, growable_readable, seek_read}
use tactmon.Io.Growable.Writes.{AtEnd, appended, appended-AtEnd, write_bytes-append}
use tactmon.Io.Readable.Laws.{size_limit}
use tactmon.Tact.Blte.{ChunkHeader, Zlib, load_mode, load_chunk, load_chunks}

module _ (md5 : Bytes → Bytes) {Z : Type 0} (zlib : Zlib Z) (fuel : ℕ) where
  -- The bytes hold, where the header says, the mode and the body, and their digest is its checksum.
  pub record Stored (bytes : Bytes) (chunk : ChunkHeader) (body : Bytes) : Type 0 where
    pub size : chunk.compressed_size ≡ suc (length body)
    pub inside : chunk.offset + suc (length body) ≤ length bytes
    pub here : take (suc (length body)) (drop chunk.offset bytes) ≡ b'N' ∷ body
    pub digest : md5 (b'N' ∷ body) ≡ chunk.checksum

  load_mode-stored :
      (body : Bytes) (buffer : GrowableMemoryStream)
      → AtEnd buffer
      → load_mode zlib fuel (b'N' ∷ body) buffer ≡ ok (true, appended buffer body)
  unfolding load_mode
  load_mode-stored body buffer e =
      rw (write_bytes-append buffer body e, (==_iff (length body) (length body)).1 refl)

  load_chunk-Stored :
      (s buffer : GrowableMemoryStream) (chunk : ChunkHeader) (body : Bytes)
      → length s.bytes < size_limit
      → AtEnd buffer
      → Stored s.bytes chunk body
      → load_chunk md5 zlib fuel chunk (seek_read s chunk.offset) buffer
        ≡ ok (true, appended buffer body)
  unfolding load_chunk seek_read
  load_chunk-Stored s buffer chunk body small e st =
      let o : min chunk.offset (length s.bytes) ≡ chunk.offset = omega (arith, st.inside) in
      let unread = drop chunk.offset s.bytes in
      let inside : leb chunk.offset (length s.bytes) ≡ true =
        le→leb _ _ (omega (arith, st.inside)) in
      let room : ltb (length s.bytes) (add64 chunk.offset (suc (length body))) ≡ false =
        le→ltb _ _ (omega (arith, st.inside, small)) in
      let enough : ltb (length unread) (suc (length body)) ≡ false =
        le→ltb _ _ (omega (arith, st.inside, length-drop chunk.offset s.bytes)) in
      rw
        (
          o,
          st.size,
          room,
          inside,
          enough,
          st.here,
          st.digest,
          (equal_iff chunk.checksum chunk.checksum).1 refl,
        )
        (load_mode-stored body buffer e)

  abbrev pub AllStored : Bytes → List (ChunkHeader × Bytes) → Type 0
  AllStored bytes [] = Unit {0}
  AllStored bytes ((chunk, body) ∷ cs) = Stored bytes chunk body × AllStored bytes cs

  -- The headers, and the bodies one behind the other.
  abbrev pub headers_of : List (ChunkHeader × Bytes) → List ChunkHeader
  headers_of [] = []
  headers_of ((chunk, body) ∷ cs) = chunk ∷ headers_of cs

  abbrev pub bodies_of : List (ChunkHeader × Bytes) → Bytes
  bodies_of [] = []
  bodies_of ((chunk, body) ∷ cs) = body ++ bodies_of cs

  -- Chunks of mode 'N' that are in the stream where their headers say, each with the digest of
  -- its header, are all loaded into a buffer that is written at its end, and leave their bodies,
  -- in the order of the headers, behind what the buffer held.
  pub load_chunks-stored :
      (cs : List (ChunkHeader × Bytes)) (s buffer : GrowableMemoryStream)
      → length s.bytes < size_limit
      → AtEnd buffer
      → AllStored s.bytes cs
      → (after : GrowableMemoryStream) × (load_chunks md5 zlib fuel (headers_of cs) s buffer
          ≡ ok (some after))
        × (after.bytes ≡ buffer.bytes ++ bodies_of cs)
        × AtEnd after
        × (after.read_cursor ≡ buffer.read_cursor)
  unfolding load_chunks seek_read
  load_chunks-stored [] s buffer small e h = (buffer, refl, sym (append-nil buffer.bytes), e, refl)
  load_chunks-stored ((chunk, body) ∷ cs) s buffer small e (st, sts) =
      let s' = seek_read s chunk.offset in
      let (after, loaded, bytes, e', cursor) =
        load_chunks-stored cs s' (appended buffer body) small (appended-AtEnd buffer body) sts in
      (
        after,
        rw (load_chunk-Stored s buffer chunk body small e st) loaded,
        bytes ∙ append_assoc buffer.bytes body (bodies_of cs),
        e',
        cursor,
      )

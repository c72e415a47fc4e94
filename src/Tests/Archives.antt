-- ===== src/Tests/Archives.antt =====
-- The theorems of libtactmon/tact/BLTE at concrete inputs.
use tactmon.Prelude.{ℕ, ◌≡◌, refl, none, some, [], ◌∷◌, ◌++◌, arith, Bytes, length, take, zeros, ok}
use tactmon.Io.Growable.{GrowableMemoryStream, growable_readable, empty_stream, of_span}
use tactmon.Tact.Blte.{ChunkHeader, Inflated, Zlib, progress, load_chunks}
use tactmon.Tact.Blte.Chunks.{Stored, load_chunks-stored}
use tactmon.Tact.Key.{Key, key_of}

-- A digest for tests, and a zlib that is never called.
abbrev digest : Bytes → Bytes
digest bs = take 16 (bs ++ zeros 16)

abbrev no_zlib : Zlib ℕ
no_zlib = record {
  init = none;
  inflate = λ z input room. record { status = progress; rest = []; output = []; next = z };
}

-- An archive of one stored chunk, "Nab".
abbrev header_bytes : Bytes
header_bytes =
    0x42
    ∷ 0x4c
    ∷ 0x54
    ∷ 0x45
    ∷ 0
    ∷ 0
    ∷ 0
    ∷ 36
    ∷ 0
    ∷ 0
    ∷ 0
    ∷ 1
    ∷ 0
    ∷ 0
    ∷ 0
    ∷ 3
    ∷ 0
    ∷ 0
    ∷ 0
    ∷ 2
    ∷ b'N'
    ∷ b'a'
    ∷ b'b'
    ∷ zeros 13

abbrev archive : GrowableMemoryStream
archive = of_span (header_bytes ++ (b'N' ∷ b'a' ∷ b'b' ∷ []))

abbrev contents : GrowableMemoryStream
contents = record { bytes = b'a' ∷ b'b' ∷ []; read_cursor = 0; write_cursor = 2 }

abbrev header_key : Key
header_key = key_of (take 12 header_bytes ++ (0 ∷ 0 ∷ 0 ∷ 0 ∷ []))

abbrev contents_key : Key
contents_key = key_of (b'a' ∷ b'b' ∷ zeros 14)

abbrev chunk : ChunkHeader
chunk = record {
  compressed_size = 3;
  decompressed_size = 2;
  checksum = b'N' ∷ b'a' ∷ b'b' ∷ zeros 13;
  offset = 36;
}

is_Stored : Stored digest no_zlib 1 archive.bytes chunk (b'a' ∷ b'b' ∷ [])
is_Stored = record { size = refl; inside = omega arith; here = refl; digest = refl }

load_chunks-stored_example :
    (after : GrowableMemoryStream) × (load_chunks digest no_zlib ⦃r = growable_readable⦄ 1
        (chunk ∷ chunk ∷ [])
        archive
        empty_stream
      ≡ ok (some after))
    × (after.bytes ≡ b'a' ∷ b'b' ∷ b'a' ∷ b'b' ∷ [])
    × (after.write_cursor ≡ length after.bytes)
    × (after.read_cursor ≡ 0)
load_chunks-stored_example =
    load_chunks-stored digest no_zlib 1 ((chunk, b'a' ∷ b'b' ∷ []) ∷ (chunk, b'a' ∷ b'b' ∷ []) ∷ [])
      archive empty_stream (omega arith) refl (is_Stored, (is_Stored, tt))

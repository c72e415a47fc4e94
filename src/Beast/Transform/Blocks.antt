-- ===== src/Beast/Transform/Blocks.antt =====
-- What the transform does at a block of data that has come in.
use tactmon.Prelude.{
  ℕ, zero, suc, ◌+◌, ◌*◌, ◌≤◌, ◌<◌, ◌≡◌, refl, sym, ap, ◌∙◌, ◌≢◌, inl, inr, true, false, Option,
  some, List, [], ◌∷◌, ◌++◌, arith, Bytes, ltb, if◌then◌else◌, lt→ltb, le→ltb, le→leb, Bool-cases,
  length, get_elem?, take, drop, equal, equal_iff, length-append, take-append, drop-append,
  take_all, undefined, Result, ok, fault, ◌>>=◌,
}
use mathlib.Core.Path.{subst}
use tactmon.Io.Growable.{GrowableMemoryStream, growable_readable, can_read, skip_read}
use tactmon.Io.Growable.Reads.{At, growable-ReadsSequentially}
use tactmon.Io.Readable.{read_value}
use tactmon.Io.Readable.Laws.{size_limit}
use tactmon.Io.Readable.Values.{read_value-big-At}
use tactmon.Tact.Blte.{Zlib}
use tactmon.Utility.Endian.{big, of_bytes}
use tactmon.Beast.Transform.{
  ChunkInfo, ErrorCode, body_limit, Transform, again, fail_with, front, block_turn, data_turn,
  data_block,
}

front-At :
    (n : ℕ) (s : GrowableMemoryStream) (bs : Bytes)
    → At s bs
    → front n s ≡ (if ltb (length bs) n then fault undefined else ok (take n bs))
unfolding front
front-At n s bs a = rw (growable-ReadsSequentially.data_span_at s bs a) refl

-- The byte of the mode.
mode-At :
    (s : GrowableMemoryStream) (m : ℕ) (bs : Bytes)
    → At s (m ∷ bs)
    → read_value 1 big s ≡ ok (m, skip_read s 1)
unfolding of_bytes
mode-At s m bs a =
    let e : m + 256 * 0 ≡ m = omega arith in
    read_value-big-At growable-ReadsSequentially s (m ∷ bs) 1 a (omega arith) ∙ rw e refl

module _ (md5 : Bytes → Bytes) {Z : Type 0} (zlib : Zlib Z) (fuel : ℕ)
    (nested : Bytes → Option ErrorCode → Result (List Bytes × Option ErrorCode)) (i : ℕ)
    (t : Transform) (chunk : ChunkInfo) (bs : Bytes) (here : get_elem? t.chunks i ≡ some chunk)
    (at : At t.stream bs) (small : chunk.compressed_size < size_limit) where
  -- A block of which enough has come in: the digest is that of as many bytes as the size without
  -- the byte of the mode, which is among them.
  data_turn-read :
      chunk.compressed_size ≤ length bs
      → data_turn md5 zlib fuel nested i t ≡ (
          let checked = (do
            (mode, s) ← read_value 1 big t.stream
            block_turn md5 zlib fuel nested mode chunk.compressed_size i
                (record t { stream = s })) in
          if equal (md5 (take chunk.compressed_size bs)) chunk.checksum
          then checked
          else fail_with body_limit t)
  unfolding data_turn
  data_turn-read h =
      let c : can_read t.stream chunk.compressed_size ≡ true =
        growable-ReadsSequentially.can_read_at t.stream bs chunk.compressed_size at small
        ∙ le→leb _ _ h in
      let f : front chunk.compressed_size t.stream ≡ ok (take chunk.compressed_size bs) =
        front-At chunk.compressed_size t.stream bs at ∙ rw (le→ltb _ _ h) refl in
      rw (here, data_turn) (rw (c, f) refl)

unequal_lem : (xs ys : Bytes) → xs ≢ ys → equal xs ys ≡ false
unequal_lem xs ys d = elim (Bool-cases (equal xs ys)) [
  | inl e ↦ absurd (d ((equal_iff xs ys).0 e))
  | inr e ↦ e
]

-- A prefix that lies within the first of two texts.
take-le : (n : ℕ) (xs ys : Bytes) → n ≤ length xs → take n (xs ++ ys) ≡ take n xs
take-le zero xs ys h = refl
take-le (suc n) [] ys h = absurd (omega arith)
take-le (suc n) (x ∷ xs) ys h = ap (λ zs. x ∷ zs) (take-le n xs ys (omega arith))

-- A block in front of what follows it: whole, with the byte of the mode, it is one byte longer than
-- the size that the transform keeps.
module _ (md5 : Bytes → Bytes) {Z : Type 0} (zlib : Zlib Z) (fuel : ℕ)
    (nested : Bytes → Option ErrorCode → Result (List Bytes × Option ErrorCode)) where
  -- A block that has come in whole, and whose checksum is the digest of all of it, the byte of the
  -- mode included, is refused, and nothing is handed on; unless the digest of the block without
  -- its last byte is the same.
  pub data_turn-refuses :
      (i : ℕ) (t : Transform) (chunk : ChunkInfo) (block rest : Bytes)
      → get_elem? t.chunks i ≡ some chunk
      → At t.stream (block ++ rest)
      → chunk.compressed_size < size_limit
      → length block ≡ suc chunk.compressed_size
      → chunk.checksum ≡ md5 block
      → md5 (take chunk.compressed_size block) ≢ md5 block
      → data_turn md5 zlib fuel nested i t ≡ fail_with body_limit t
  data_turn-refuses i t chunk block rest here at small l sum differs =
      let n = chunk.compressed_size in
      let fits : n ≤ length (block ++ rest) = omega (arith, l, length-append block rest) in
      let unequal : equal (md5 (take n (block ++ rest))) chunk.checksum ≡ false =
        unequal_lem (md5 (take n (block ++ rest))) chunk.checksum
          (λ e. differs (sym (ap md5 (take-le n block rest (omega (arith, l)))) ∙ e ∙ sum)) in
      data_turn-read md5 zlib fuel nested i t chunk (block ++ rest) here at small fits
      ∙ rw unequal refl

  -- A block of mode N whose checksum is the digest of all its bytes but the last is handed on
  -- without the byte of the mode, and the transform stands behind it, at the next block.
  pub data_turn-stored :
      (i : ℕ) (t : Transform) (chunk : ChunkInfo) (body rest : Bytes)
      → get_elem? t.chunks i ≡ some chunk
      → At t.stream (b'N' ∷ (body ++ rest))
      → chunk.compressed_size < size_limit
      → length body ≡ chunk.compressed_size
      → chunk.checksum ≡ md5 (take chunk.compressed_size (b'N' ∷ body))
      → (s : GrowableMemoryStream) × At s rest
        × (data_turn md5 zlib fuel nested i t
            ≡ again (record t {
              stream = s;
              handed = t.handed ++ (body ∷ []);
              step = data_block (suc i);
            }))
  data_turn-stored i t chunk body rest here at small l sum =
      let n = chunk.compressed_size in
      let bs = b'N' ∷ (body ++ rest) in
      let fits : n ≤ length bs = omega (arith, l, length-append body rest) in
      let same : equal (md5 (take n bs)) chunk.checksum ≡ true =
        (equal_iff (md5 (take n bs)) chunk.checksum).1
          (ap md5 (take-le n (b'N' ∷ body) rest (omega (arith, l))) ∙ sym sum) in
      let at' : At (skip_read t.stream 1) (body ++ rest) =
        growable-ReadsSequentially.skip_read_at t.stream bs 1 at (omega arith) in
      let behind : At (skip_read (skip_read t.stream 1) n) (drop n (body ++ rest)) =
        growable-ReadsSequentially.skip_read_at (skip_read t.stream 1) (body ++ rest) n at'
          (omega (arith, l, length-append body rest)) in
      let span : front n (skip_read t.stream 1) ≡ ok body =
        front-At n (skip_read t.stream 1) (body ++ rest) at'
        ∙ rw (le→ltb (length (body ++ rest)) n (omega (arith, l, length-append body rest)))
            (ap ok (take-append n body rest l)) in
      (
        skip_read (skip_read t.stream 1) n,
        subst (At (skip_read (skip_read t.stream 1) n)) (drop-append n body rest l) behind,
        data_turn-read md5 zlib fuel nested i t chunk bs here at small fits
            ∙ rw (same, mode-At t.stream b'N' (body ++ rest) at)
                (unfold block_turn in rw span refl),
      )

  -- Where the last byte of a block of mode N has not come in yet, the transform does not wait for
  -- it: it reads behind the data.
  pub data_turn-overruns :
      (i : ℕ) (t : Transform) (chunk : ChunkInfo) (part : Bytes)
      → get_elem? t.chunks i ≡ some chunk
      → At t.stream (b'N' ∷ part)
      → chunk.compressed_size < size_limit
      → suc (length part) ≡ chunk.compressed_size
      → chunk.checksum ≡ md5 (b'N' ∷ part)
      → data_turn md5 zlib fuel nested i t ≡ fault undefined
  data_turn-overruns i t chunk part here at small l sum =
      let n = chunk.compressed_size in
      let bs = b'N' ∷ part in
      let same : equal (md5 (take n bs)) chunk.checksum ≡ true =
        (equal_iff (md5 (take n bs)) chunk.checksum).1
          (ap md5 (take_all n bs (omega (arith, l))) ∙ sym sum) in
      let at' : At (skip_read t.stream 1) part =
        growable-ReadsSequentially.skip_read_at t.stream bs 1 at (omega arith) in
      let span : front n (skip_read t.stream 1) ≡ fault undefined =
        front-At n (skip_read t.stream 1) part at'
        ∙ rw (lt→ltb (length part) n (omega (arith, l))) refl in
      data_turn-read md5 zlib fuel nested i t chunk bs here at small (omega (arith, l))
      ∙ rw (same, mode-At t.stream b'N' part at) (unfold block_turn in rw span refl)

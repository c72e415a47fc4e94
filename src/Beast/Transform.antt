-- ===== src/Beast/Transform.antt =====
-- src/tactmon/beast/BlockTableEncodedStreamTransform.cpp: archives that come in piece by piece.
-- OpenSSL's MD5 is the parameter `md5`, and zlib is the record `Zlib`. The digest of the headers is
-- computed by the source and never read; it is left out.
pub mod Blocks
use tactmon.Prelude.{
  ◌>>=◌, ℕ, zero, suc, ◌+◌, ◌-◌, ◌/◌, ◌%◌, ◌^◌, Bool, true, false, not, ◌||◌, Option, none, some,
  List, [], ◌∷◌, ◌++◌, Bytes, ltb, ◌==◌, if◌then◌else◌, length, get_elem?, take, equal, undefined,
  hangs, Result, ok, fault, u32_mod,
}
use tactmon.Io.Growable.{GrowableMemoryStream, empty_stream, growable_readable}
use tactmon.Io.Readable.{ReadableStream, Read, read_value, read_bytes}
use tactmon.Io.Writable.{write_bytes}
use tactmon.Tact.Blte.{Zlib, Inflated, Status, stream_end, progress, failed, buffer_size}
use tactmon.Utility.Endian.{little, big}

pub data Step : Type 0 where
  header chunk_headers : Step
  data_block : ℕ → Step

pub record ChunkInfo : Type 0 where
  pub compressed_size : ℕ
  pub decompressed_size : ℕ
  pub checksum : Bytes

-- The values of `boost::beast::http::error` that are set.
pub data ErrorCode : Type 0 where
  body_limit need_more bad_alloc unexpected_body : ErrorCode

-- The transform, what its handler was called with, and the error code of the caller.
pub record Transform : Type 0 where
  pub chunks : List ChunkInfo
  pub step : Step
  pub header_size : ℕ
  pub stream : GrowableMemoryStream
  pub handed : List Bytes
  pub error : Option ErrorCode

-- What one turn of the loop comes to: the next turn, or a return.
abbrev pub Turn : Type 0
Turn = Result (Transform × Bool)

abbrev pub again : Transform → Turn
again t = ok (t, true)

abbrev pub return_now : Transform → Turn
return_now t = ok (t, false)

abbrev pub fail_with : ErrorCode → Transform → Turn
fail_with e t = ok (record t { error = some e }, false)

-- 'BLTE', read in the little order.
abbrev pub signature_value : ℕ
signature_value = 0x45544c42

unfoldable pub header_turn : Transform → Turn
header_turn t =
    if growable_readable.can_read t.stream 8
    then (do
      (signature, s) ← read_value 4 little t.stream
      let more = (do
        (size, s') ← read_value 4 big s
        again (record t { stream = s'; header_size = size; step = chunk_headers }))
      if signature == signature_value then more else fail_with body_limit (record t { stream = s }))
    else return_now t

-- The loop over the chunk headers; the size is a 32 bit word from which 1 is taken.
unfoldable pub read_chunks : ℕ → Read GrowableMemoryStream (List ChunkInfo)
read_chunks zero s = ok ([], s)
read_chunks (suc n) s = do
  (compressed, s₁) ← read_value 4 big s
  (decompressed, s₂) ← read_value 4 big s₁
  (checksum, s₃) ← read_bytes 16 s₂
  (rest, s') ← read_chunks n s₃
  let chunk : ChunkInfo = record {
    compressed_size = (compressed + u32_mod - 1) % u32_mod;
    decompressed_size = decompressed;
    checksum = checksum;
  }
  ok (chunk ∷ rest, s')

unfoldable pub chunk_headers_turn : Transform → Turn
unfolding read_chunks
chunk_headers_turn t =
    if growable_readable.can_read t.stream t.header_size
    then (do
      (word, s) ← read_value 4 big t.stream
      let flags = word / 2 ^ 24 % 2 ^ 8
      let count = word % 2 ^ 24
      let more = (do
        (chunks, s') ← read_chunks count s
        again (record t { stream = s'; chunks = chunks; step = data_block 0 }))
      if not (flags == 0xf) || (count == 0)
          then fail_with need_more (record t { stream = s })
          else more)
    else return_now t

-- `Data().subspan(0, n)`: a span that is left is undefined. So is a pointer to the data that is
-- read for `n` bytes.
unfoldable pub front : ℕ → GrowableMemoryStream → Result Bytes
front n s = do
  unread ← growable_readable.data_span s
  if ltb (length unread) n then fault undefined else ok (take n unread)

module _ {Z : Type 0} (zlib : Zlib Z) where
  -- The loop around `inflate`: what is handed on, and whether it failed.
  unfoldable pub inflate_turns : ℕ → Status → Z → Bytes → Result (List Bytes × Bool)
  inflate_turns fuel stream_end z input = ok ([], true)
  inflate_turns fuel failed z [] = ok ([], true)
  inflate_turns fuel progress z [] = ok ([], true)
  inflate_turns zero status z (b ∷ bs) = fault hangs
  inflate_turns (suc fuel) status z (b ∷ bs) =
      let r = zlib.inflate z (b ∷ bs) buffer_size in
      let more = (do
        (handed, fine) ← inflate_turns fuel r.status r.next r.rest
        ok (r.output ∷ handed, fine)) in
      elim r.status [ failed ↦ ok ([], false) | _ ↦ more ]

-- Behind the mode byte: what a block of each mode does, on the stream that stands behind the mode.
-- `nested` is the transform of a block of mode F, on its bytes and the error code.
module _ (md5 : Bytes → Bytes) {Z : Type 0} (zlib : Zlib Z) where
  unfoldable pub block_turn :
      ℕ
      → (Bytes → Option ErrorCode → Result (List Bytes × Option ErrorCode))
      → ℕ
      → ℕ
      → ℕ
      → Transform
      → Turn
  unfolding front inflate_turns
  block_turn fuel nested mode size i t =
      let next = λ (s : GrowableMemoryStream) (handed : List Bytes) (e : Option ErrorCode).
        again (record t {
          stream = growable_readable.skip_read s size;
          handed = t.handed ++ handed;
          error = e;
          step = data_block (suc i);
        }) in
      if mode == b'N'
      then (do span ← front size t.stream; next t.stream (span ∷ []) t.error)
      else if mode == b'Z'
      then elim zlib.init [
        | none ↦ fail_with bad_alloc t
        | some z ↦ (do
          span ← front size t.stream
          (handed, fine) ← inflate_turns zlib fuel progress z span
          if fine
              then next t.stream handed t.error
              else fail_with bad_alloc (record t { handed = t.handed ++ handed }))
      ]
      else if mode == b'F'
      then (do
        span ← front size t.stream
        (handed, e) ← nested span t.error
        next t.stream handed e)
      else fail_with unexpected_body t

  -- A turn at the block `i`.
  unfoldable pub data_turn :
      ℕ → (Bytes → Option ErrorCode → Result (List Bytes × Option ErrorCode)) → ℕ → Transform → Turn
  unfolding block_turn front
  data_turn fuel nested i t = elim (get_elem? t.chunks i) [
    | none ↦ return_now t
    | some chunk ↦
        if growable_readable.can_read t.stream chunk.compressed_size
        then (do
          span ← front chunk.compressed_size t.stream
          let checked = (do
            (mode, s) ← read_value 1 big t.stream
            block_turn fuel nested mode chunk.compressed_size i (record t { stream = s }))
          if equal (md5 span) chunk.checksum then checked else fail_with body_limit t)
        else return_now t
  ]

  unfoldable pub turn :
      ℕ
      → (Bytes → Option ErrorCode → Result (List Bytes × Option ErrorCode))
      → Step
      → Transform
      → Turn
  unfolding header_turn chunk_headers_turn data_turn
  turn fuel nested header t = header_turn t
  turn fuel nested chunk_headers t = chunk_headers_turn t
  turn fuel nested (data_block i) t = data_turn fuel nested i t

  -- `Parse` appends its data, and the loop goes on until a turn returns.
  unfoldable pub append_data : Bytes → Transform → Result Transform
  append_data input t = do
    (count, s) ← write_bytes little input t.stream
    ok (record t { stream = s })

  abbrev pub new_transform : Option ErrorCode → Transform
  new_transform e = record {
    chunks = [];
    step = header;
    header_size = 0;
    stream = empty_stream;
    handed = [];
    error = e;
  }

  unfoldable pub turns : ℕ → Transform → Result Transform
  unfolding turn append_data
  turns zero t = fault hangs
  turns (suc fuel) t = do
    (t', more) ←
        turn fuel
          (λ input e. do
            started ← append_data input (new_transform e)
            ended ← turns fuel started
            ok (ended.handed, ended.error))
          t.step t
    let rest = turns fuel t'
    if more then rest else ok t'

  -- `Parse`; what it returns is the size of the data.
  unfoldable pub parse : ℕ → Bytes → Transform → Result Transform
  unfolding turns append_data
  parse fuel input t = do started ← append_data input t; turns fuel started

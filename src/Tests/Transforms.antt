-- ===== src/Tests/Transforms.antt =====
-- The theorems of src/tactmon/beast at concrete inputs. The digest is the text itself.
use tactmon.Prelude.{
  ℕ, ◌≡◌, refl, ap, Option, none, List, [], ◌∷◌, arith, Bytes, length, codes, Result, ok,
}
use tactmon.Io.Growable.{GrowableMemoryStream, of_span}
use tactmon.Io.Growable.Reads.{At, of_span-At}
use tactmon.Tact.Blte.{Zlib, stream_end}
use tactmon.Beast.Transform.{
  ChunkInfo, ErrorCode, body_limit, Transform, again, fail_with, data_turn, data_block,
}
use tactmon.Beast.Transform.Blocks.{data_turn-refuses, data_turn-stored}

abbrev digest : Bytes → Bytes
digest bs = bs

-- A zlib that is never ready.
abbrev no_zlib : Zlib ℕ
no_zlib = record {
  init = none;
  inflate = λ z input room. record { status = stream_end; rest = []; output = []; next = 0 };
}

abbrev no_nested : Bytes → Option ErrorCode → Result (List Bytes × Option ErrorCode)
no_nested input e = ok ([], e)

abbrev chunk_of : Bytes → ChunkInfo
chunk_of sum = record { compressed_size = 2; decompressed_size = 2; checksum = sum }

abbrev reading : Bytes → Bytes → Transform
reading sum bs = record {
  chunks = chunk_of sum ∷ [];
  step = data_block 0;
  header_size = 36;
  stream = of_span bs;
  handed = [];
  error = none;
}

data_turn-refuses_example :
    data_turn digest no_zlib 9 no_nested 0 (reading (codes "Nab") (codes "Nab"))
    ≡ fail_with body_limit (reading (codes "Nab") (codes "Nab"))
data_turn-refuses_example =
    data_turn-refuses digest no_zlib 9 no_nested 0 (reading (codes "Nab") (codes "Nab"))
      (chunk_of (codes "Nab")) (codes "Nab") [] refl (of_span-At (codes "Nab") (omega arith))
      (omega arith) refl refl (λ e. absurd (omega (arith, ap length e)))

data_turn-stored_example :
    (s : GrowableMemoryStream) × At s (codes "N")
    × (data_turn digest no_zlib 9 no_nested 0 (reading (codes "Na") (codes "NabN"))
        ≡ again (record (reading (codes "Na") (codes "NabN")) {
          stream = s;
          handed = codes "ab" ∷ [];
          step = data_block 1;
        }))
data_turn-stored_example =
    data_turn-stored digest no_zlib 9 no_nested 0 (reading (codes "Na") (codes "NabN"))
      (chunk_of (codes "Na")) (codes "ab") (codes "N") refl
      (of_span-At (codes "NabN") (omega arith)) (omega arith) refl refl

-- ===== src/Net/Request.antt =====
-- src/tactmon/net/Session.cpp: the first part of `ProcessRequest`, which reads the target of a
-- request. The path has six parts behind the first `/`.
pub mod Laws
use tactmon.Prelude.{
  ◌>>=◌, ℕ, false, Option, none, some, List, [], ◌∷◌, Bytes, ◌==◌, if◌then◌else◌, length, codes,
  Result, ok, size_mod,
}
use tactmon.Text.Tokenizer.{tokenize_char, find_char}
use tactmon.Text.Numbers.{from_chars}

-- `FileQueryParams`.
pub record FileQueryParams : Type 0 where
  pub product : Bytes
  pub archive_name : Bytes
  pub offset : ℕ
  pub len : ℕ
  pub decompressed_size : ℕ
  pub file_name : Bytes

-- The answers of `writeError`, all with the status 400.
pub data BadRequest : Type 0 where
  exploit malformed range_start range_length bad_length : BadRequest

unfoldable pub body_of : BadRequest → Bytes
body_of exploit = codes "Don't try to exploit me"
body_of malformed = codes "Malformed request"
body_of range_start = codes "Invalid range start value"
body_of range_length = codes "Invalid range length value"
body_of bad_length = codes "Invalid length"

pub data Parsed : Type 0 where
  rejected : BadRequest → Parsed
  accepted : FileQueryParams → Parsed

-- The decompressed size, which is not 0.
unfoldable pub read_size : Bytes → Option ℕ
read_size token = elim (from_chars size_mod token) [
  | none ↦ none
  | some v ↦ if v == 0 then none else some v
]

-- The three numbers of a path, in the order in which they are read.
unfoldable pub read_numbers : Bytes → Bytes → Bytes → Bytes → Bytes → Bytes → Parsed
unfolding read_size
read_numbers product archive offset len size file = elim (from_chars size_mod offset) [
  | none ↦ rejected range_start
  | some o ↦ elim (from_chars size_mod len) [
    | none ↦ rejected range_length
    | some l ↦ elim (read_size size) [
      | none ↦ rejected bad_length
      | some s ↦ accepted (record {
        product = product;
        archive_name = archive;
        offset = o;
        len = l;
        decompressed_size = s;
        file_name = file;
      })
    ]
  ]
]

-- The tokens, without the first one.
unfoldable pub read_tokens : List Bytes → Parsed
unfolding read_numbers
read_tokens (root ∷ product ∷ archive ∷ offset ∷ len ∷ size ∷ file ∷ []) =
    read_numbers product archive offset len size file
read_tokens tokens = rejected malformed

unfoldable pub parse_target : Bytes → Result Parsed
unfolding read_tokens
parse_target target = elim (find_char b'\\' target) [
  | some i ↦ ok (rejected exploit)
  | none ↦ (do tokens ← tokenize_char target b'/' false; ok (read_tokens tokens))
]

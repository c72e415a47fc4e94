-- ===== src/Tact/Config/Build.antt =====
-- src/libtactmon/libtactmon/tact/config/BuildConfig.hpp and BuildConfig.cpp.
pub mod Lines
use tactmon.Prelude.{
  ℕ, false, not, ◌&&◌, Option, none, some, List, [], ◌∷◌, Bytes, ◌==◌, if◌then◌else◌, length, codes,
  equal, is_empty, Result, ok, ◌>>=◌, size_mod,
}
use tactmon.Io.Readable.{ReadableStream}
use tactmon.Tact.Config.{contents, token, first_char, line_tokens}
use tactmon.Tact.Key.{Key, empty_key, try_parse}
use tactmon.Text.Tokenizer.{tokenize_char}
use tactmon.Text.Numbers.{from_chars}

-- `Install` and `Encoding`: the two keys, and `Size[0]`, `Size[1]`.
pub record Manifest : Type 0 where
  pub content_key : Key
  pub encoding_key : Key
  pub size : ℕ
  pub encoded_size : ℕ

pub record BuildConfig : Type 0 where
  pub root : Key
  pub install : Manifest
  pub encoding : Manifest
  pub build_name : Bytes

abbrev pub empty_manifest : Manifest
empty_manifest = record {
  content_key = empty_key;
  encoding_key = empty_key;
  size = 0;
  encoded_size = 0;
}

abbrev pub empty_config : BuildConfig
empty_config = record {
  root = empty_key;
  install = empty_manifest;
  encoding = empty_manifest;
  build_name = [];
}

-- The handlers return a flag: nothing stands for `false`, after which the result is not used.
unfoldable pub root_handler : BuildConfig → List Bytes → Result (Option BuildConfig)
root_handler cfg tokens = if not (length tokens == 2) then ok none else (do
  value ← token tokens 1
  (parsed, key) ← try_parse value
  ok (if not parsed then none else some (record cfg { root = key })))

-- "install" and "encoding": the second key is read whether or not the line has it.
unfoldable pub keys_handler : Manifest → List Bytes → Result (Option Manifest)
keys_handler m tokens =
    if not (length tokens == 3) && not (length tokens == 2) then ok none else (do
      content ← token tokens 1
      (parsed, content_key) ← try_parse content
      let second = (do
        encoding ← token tokens 2
        (parsed', encoding_key) ← try_parse encoding
        ok (
            if not parsed'
            then none
            else some (record m { content_key = content_key; encoding_key = encoding_key })))
      if not parsed then ok none else second)

-- "install-size" and "encoding-size": the second size may be missing.
unfoldable pub sizes_handler : Manifest → List Bytes → Result (Option Manifest)
sizes_handler m tokens =
    if not (length tokens == 3) && not (length tokens == 2) then ok none else (do
      first ← token tokens 1
      elim (from_chars size_mod first) [
        | none ↦ ok none
        | some n ↦
            let second = (do
              value ← token tokens 2
              ok (elim (from_chars size_mod value) [
                | none ↦ none
                | some k ↦ some (record m { size = n; encoded_size = k })
              ])) in
            if length tokens == 3 then second else ok (some (record m { size = n }))
      ])

unfoldable pub build_name_handler : BuildConfig → List Bytes → Result (Option BuildConfig)
build_name_handler cfg tokens =
    if not (length tokens == 2)
    then ok none
    else (do value ← token tokens 1; ok (some (record cfg { build_name = value })))

-- A handler of one of the two manifests, on the configuration.
abbrev on_install :
    (Manifest → List Bytes → Result (Option Manifest))
    → BuildConfig
    → List Bytes
    → Result (Option BuildConfig)
on_install h cfg tokens = do
  m ← h cfg.install tokens
  ok (elim m [ none ↦ none | some i ↦ some (record cfg { install = i }) ])

abbrev on_encoding :
    (Manifest → List Bytes → Result (Option Manifest))
    → BuildConfig
    → List Bytes
    → Result (Option BuildConfig)
on_encoding h cfg tokens = do
  m ← h cfg.encoding tokens
  ok (elim m [ none ↦ none | some e ↦ some (record cfg { encoding = e }) ])

abbrev Handler : Type 0
Handler = BuildConfig → List Bytes → Result (Option BuildConfig)

-- `Handlers`.
unfoldable pub handlers : List (Bytes × Handler)
unfolding root_handler keys_handler sizes_handler build_name_handler
handlers =
    (codes "root", root_handler)
    ∷ (codes "install", on_install keys_handler)
    ∷ (codes "install-size", on_install sizes_handler)
    ∷ (codes "encoding", on_encoding keys_handler)
    ∷ (codes "encoding-size", on_encoding sizes_handler)
    ∷ (codes "build-name", build_name_handler)
    ∷ []

-- The loop over the handlers: the first whose name is the first token is called.
unfoldable pub dispatch :
    List (Bytes × Handler) → BuildConfig → List Bytes → Result (Option BuildConfig)
dispatch [] cfg tokens = ok (some cfg)
dispatch ((name, handler) ∷ hs) cfg tokens = do
  first ← token tokens 0
  if equal first name then handler cfg tokens else dispatch hs cfg tokens

unfoldable pub parse_line : BuildConfig → Bytes → Result (Option BuildConfig)
parse_line cfg line = do
  c ← first_char line
  let read = (do tokens ← line_tokens line; dispatch handlers cfg tokens)
  if c == b'#' then ok (some cfg) else read

unfoldable pub parse_lines : BuildConfig → List Bytes → Result (Option BuildConfig)
parse_lines cfg [] = ok (some cfg)
parse_lines cfg (line ∷ lines) = do
  next ← parse_line cfg line
  elim next [ none ↦ ok none | some cfg' ↦ parse_lines cfg' lines ]

-- The part of `Parse` behind the reading of the contents.
unfoldable pub parse_contents : Bytes → Result (Option BuildConfig)
parse_contents text = do
  lines ← tokenize_char text b'\n' false
  if is_empty lines then ok none else parse_lines empty_config lines

unfoldable pub parse : {S : Type 0} ⦃r : ReadableStream S⦄ → S → Result (Option BuildConfig)
parse s = do (text, s') ← contents s; parse_contents text

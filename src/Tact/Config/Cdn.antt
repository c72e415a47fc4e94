-- ===== src/Tact/Config/Cdn.antt =====
-- src/libtactmon/libtactmon/tact/config/CDNConfig.hpp and CDNConfig.cpp.
use tactmon.Prelude.{
  ℕ, true, Option, none, some, List, [], ◌∷◌, Bytes, ◌==◌, if◌then◌else◌, length, drop, codes,
  equal, is_empty, undefined, Result, ok, fault, ◌>>=◌, size_mod,
}
use tactmon.Io.Readable.{ReadableStream}
use tactmon.Tact.Config.{contents, token, first_char, line_tokens}
use tactmon.Text.Tokenizer.{tokenize_char}
use tactmon.Text.Numbers.{from_chars}

pub record Archive : Type 0 where
  pub name : Bytes
  pub size : ℕ

pub record CdnConfig : Type 0 where
  pub archives : List Archive
  pub file_index : Option Archive

abbrev pub empty_archive : Archive
empty_archive = record { name = []; size = 0 }

-- "archives": `resize` keeps the sizes that are there, and every name is set.
unfoldable pub set_names : List Archive → List Bytes → List Archive
set_names old [] = []
set_names [] (t ∷ ts) = record empty_archive { name = t } ∷ set_names [] ts
set_names (a ∷ old) (t ∷ ts) = record a { name = t } ∷ set_names old ts

-- "archives-index-size": a size with no archive is written out of bounds.
unfoldable pub set_sizes : List Archive → List Bytes → Result (Option (List Archive))
set_sizes old [] = ok (some old)
set_sizes [] (t ∷ ts) = fault undefined
set_sizes (a ∷ old) (t ∷ ts) = elim (from_chars size_mod t) [
  | none ↦ ok none
  | some n ↦ (do
    rest ← set_sizes old ts
    ok (elim rest [ none ↦ none | some sized ↦ some (record a { size = n } ∷ sized) ]))
]

-- `fileIndex`, emplaced where it has no value.
abbrev pub file_index_of : CdnConfig → Archive
file_index_of cfg = elim cfg.file_index [ none ↦ empty_archive | some a ↦ a ]

unfoldable pub file_index_name : CdnConfig → List Bytes → Result (Option CdnConfig)
file_index_name cfg tokens = if length tokens == 1 then ok none else (do
  name ← token tokens 1
  ok (some (record cfg { file_index = some (record (file_index_of cfg) { name = name }) })))

unfoldable pub file_index_size : CdnConfig → List Bytes → Result (Option CdnConfig)
file_index_size cfg tokens = if length tokens == 1 then ok none else (do
  value ← token tokens 1
  ok (elim (from_chars size_mod value) [
    | none ↦ none
    | some n ↦ some (record cfg { file_index = some (record (file_index_of cfg) { size = n }) })
  ]))

-- The ladder on `tokens[0]`.
unfoldable pub dispatch : CdnConfig → List Bytes → Result (Option CdnConfig)
unfolding set_names set_sizes file_index_name file_index_size
dispatch cfg tokens = do
  first ← token tokens 0
  if equal first (codes "archives")
      then ok (some (record cfg { archives = set_names cfg.archives (drop 1 tokens) }))
      else if equal first (codes "archives-index-size")
      then (do
        sizes ← set_sizes cfg.archives (drop 1 tokens)
        ok (elim sizes [ none ↦ none | some sized ↦ some (record cfg { archives = sized }) ]))
      else if equal first (codes "file-index")
      then file_index_name cfg tokens
      else if equal first (codes "file-index-size")
      then file_index_size cfg tokens
      else ok (some cfg)

unfoldable pub parse_line : CdnConfig → Bytes → Result (Option CdnConfig)
parse_line cfg line = do
  c ← first_char line
  let read = (do tokens ← line_tokens line; dispatch cfg tokens)
  if c == b'#' then ok (some cfg) else read

unfoldable pub parse_lines : CdnConfig → List Bytes → Result (Option CdnConfig)
parse_lines cfg [] = ok (some cfg)
parse_lines cfg (line ∷ lines) = do
  next ← parse_line cfg line
  elim next [ none ↦ ok none | some cfg' ↦ parse_lines cfg' lines ]

unfoldable pub parse_contents : Bytes → Result (Option CdnConfig)
parse_contents text = do
  lines ← tokenize_char text b'\n' true
  if is_empty lines
      then ok none
      else parse_lines (record { archives = []; file_index = none }) lines

unfoldable pub parse : {S : Type 0} ⦃r : ReadableStream S⦄ → S → Result (Option CdnConfig)
parse s = do (text, s') ← contents s; parse_contents text

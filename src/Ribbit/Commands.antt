-- ===== src/Ribbit/Commands.antt =====
-- src/libtactmon/libtactmon/ribbit/Commands.cpp: the body of an answer as a list of records.
pub mod Laws
use tactmon.Prelude.{
  ℕ, true, ◌||◌, Option, none, some, List, [], ◌∷◌, ◌++◌, Bytes, ◌==◌, if◌then◌else◌, drop, codes,
  is_empty, Result, ok, ◌>>=◌, size_mod,
}
use tactmon.Text.Tokenizer.{tokenize_text, starts_with}
use tactmon.Text.Numbers.{from_chars}
use tactmon.Ribbit.Records.{
  VersionsRecord, SummaryRecord, CdnsRecord, versions_record, bgdl_record, summary_record,
  cdns_record,
}

-- `types::Versions`.
pub record Versions : Type 0 where
  pub records : List VersionsRecord
  pub sequence_id : ℕ

abbrev pub crlf : Bytes
crlf = 0x0d ∷ 0x0a ∷ []

-- The loop over the lines: the records of the lines that parse.
unfoldable pub records_of {ℓ} :
    {A : Type ℓ} → (Bytes → Result (Option A)) → List Bytes → Result (List A)
records_of parse [] = ok []
records_of parse (line ∷ lines) = do
  value ← parse line
  rest ← records_of parse lines
  ok (elim value [ none ↦ rest | some r ↦ r ∷ rest ])

-- `if (x.empty()) return std::nullopt;`
unfoldable pub unless_empty {ℓ} : {A : Type ℓ} → List A → Option (List A)
unless_empty [] = none
unless_empty (x ∷ xs) = some (x ∷ xs)

-- `x.erase(x.begin())` behind the same test.
unfoldable pub without_first {ℓ} : {A : Type ℓ} → List A → Option (List A)
without_first [] = none
without_first (x ∷ xs) = some xs

unfoldable pub parse_bgdl : Bytes → Result (Option (List VersionsRecord))
parse_bgdl input = do
  lines ← tokenize_text input crlf true
  records ← records_of bgdl_record lines
  ok (without_first records)

unfoldable pub parse_cdns : (Bytes → List Bytes) → Bytes → Result (Option (List CdnsRecord))
parse_cdns split input = do
  lines ← tokenize_text input crlf true
  records ← records_of (cdns_record split) lines
  ok (without_first records)

unfoldable pub parse_summary : Bytes → Result (Option (List SummaryRecord))
parse_summary input = do
  lines ← tokenize_text input crlf true
  records ← records_of summary_record lines
  ok (unless_empty records)

abbrev pub seqn_prefix : Bytes
seqn_prefix = codes "## seqn = "

-- One line of `ProductVersions`: a record, or the sequence number, or neither.
unfoldable pub versions_line : Versions → Bytes → Result Versions
versions_line v line = do
  value ← versions_record line
  ok (elim value [
    | some r ↦ record v { records = v.records ++ (r ∷ []) }
    | none ↦
        if starts_with seqn_prefix line
        then record v {
          sequence_id = elim (from_chars size_mod (drop 10 line)) [ some n ↦ n | none ↦ 0 ];
        }
        else v
  ])

unfoldable pub versions_lines : Versions → List Bytes → Result Versions
versions_lines v [] = ok v
versions_lines v (line ∷ lines) = do v' ← versions_line v line; versions_lines v' lines

unfoldable pub parse_versions : Bytes → Result (Option Versions)
parse_versions input = do
  lines ← tokenize_text input crlf true
  v ← versions_lines (record { records = []; sequence_id = 0 }) lines
  ok (if is_empty v.records || v.sequence_id == 0 then none else some v)

-- ===== src/Tests/Answers.antt =====
-- The theorems of libtactmon/ribbit at concrete inputs.
use tactmon.Prelude.{
  ℕ, ◌≡◌, refl, ◌∙◌, Option, none, some, [], ◌∷◌, ◌++◌, arith, Bytes, if◌then◌else◌, codes, equal,
  Result, ok,
}
use tactmon.Ribbit.Commands.{parse_versions}
use tactmon.Ribbit.Commands.Laws.{page, parse_versions-page}
use tactmon.Ribbit.Execute.{eu, v2, summary, parse_core, execute}
use tactmon.Ribbit.Execute.Laws.{execute-first}
use tactmon.Ribbit.Records.{
  VersionsRecord, SummaryRecord, versions_record, bgdl_record, summary_record,
}
use tactmon.Ribbit.Records.Rows.{versions_record-row}

abbrev row_of : VersionsRecord
row_of = record {
  region = codes "us";
  build_config = codes "b";
  cdn_config = codes "c";
  key_ring = [];
  build_id = 42;
  versions_name = codes "n";
  product_config = codes "p";
}

versions_record-row_example :
    (versions_record (codes "us|b|c||42|n|p") ≡ ok (some row_of))
    × (bgdl_record (codes "us|b|c||42|n|p") ≡ versions_record (codes "us|b|c||42|n|p"))
unfolding tactmon.Text.Numbers.value_of
versions_record-row_example =
    versions_record-row (codes "us") (codes "b") (codes "c") [] (codes "n") 4 (2 ∷ []) (codes "p")
      (ground arith) (ground arith) (omega arith)

abbrev summary_of : SummaryRecord
summary_of = record { product = codes "wow"; sequence_id = 42; flags = [] }

abbrev line : Bytes
line = codes "us|b|c||42|n|p"

bgdl_reads : bgdl_record line ≡ ok (some row_of)
bgdl_reads = versions_record-row_example.1 ∙ versions_record-row_example.0

header_unread : versions_record (codes "Region") ≡ ok none
unfolding versions_record tactmon.Ribbit.Records.versions_columns
    tactmon.Text.Tokenizer.tokenize_char tactmon.Text.Tokenizer.tokenize_with
    tactmon.Text.Tokenizer.find_char tactmon.Text.Tokenizer.push
header_unread = refl

number_unread : versions_record (codes "## seqn = 9") ≡ ok none
unfolding versions_record tactmon.Ribbit.Records.versions_columns
    tactmon.Text.Tokenizer.tokenize_char tactmon.Text.Tokenizer.tokenize_with
    tactmon.Text.Tokenizer.find_char tactmon.Text.Tokenizer.push
number_unread = refl

parse_versions-page_example :
    parse_versions (page (codes "Region" ∷ codes "## seqn = 9" ∷ line ∷ []))
    ≡ ok (some (record { records = row_of ∷ []; sequence_id = 9 }))
unfolding tactmon.Text.Numbers.from_chars tactmon.Text.Numbers.digits_of
    tactmon.Text.Numbers.value_of tactmon.Text.Tokenizer.starts_with
parse_versions-page_example =
    parse_versions-page (codes "Region") (codes "9") 9 (line ∷ []) (row_of ∷ []) (ground arith)
      (ground arith) header_unread refl number_unread refl (versions_record-row_example.0, tt)

-- An answer of the second version: two parts, of which the second parses.
abbrev answer : Bytes
answer = codes "a" ++ (0x0d ∷ 0x0a ∷ 0x0d ∷ 0x0a ∷ codes "b")

abbrev accepts_b : Bytes → Result (Option ℕ)
accepts_b part = if equal part (codes "b") then ok (some 7) else ok none

two_parts : parse_core (λ input. none) v2 answer ≡ ok (codes "a" ∷ codes "b" ∷ [])
unfolding parse_core tactmon.Text.Tokenizer.tokenize_text tactmon.Text.Tokenizer.tokenize_with
    tactmon.Text.Tokenizer.find_text tactmon.Text.Tokenizer.starts_with tactmon.Text.Tokenizer.push
two_parts = refl

execute-first_example :
    execute (λ host request. some answer) (λ input. none) summary v2 accepts_b eu [] ≡ ok (some 7)
unfolding equal
execute-first_example =
    execute-first (λ host request. some answer) (λ input. none) summary v2 accepts_b eu [] answer
      (codes "b") (codes "a" ∷ []) [] 7 refl two_parts (refl, tt) refl

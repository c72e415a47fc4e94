-- ===== src/Ribbit/Commands/Laws.antt =====
-- The answers to `versions`, `summary`, `cdns` and `bgdl`, line by line.
use tactmon.Prelude.{
  ℕ, ◌≡◌, refl, ap, ◌∙◌, true, false, ◌||◌, Option, none, some, List, [], ◌∷◌, ◌++◌, Bytes, ◌==◌,
  if◌then◌else◌, All, is_empty, Result, ok, size_mod,
}
use tactmon.Ribbit.Commands.{
  Versions, records_of, versions_line, versions_lines, parse_versions, parse_summary, parse_bgdl,
  unless_empty, without_first, crlf, seqn_prefix,
}
use tactmon.Ribbit.Records.{
  VersionsRecord, SummaryRecord, versions_record, summary_record, bgdl_record,
}
use tactmon.Text.Numbers.{from_chars}
use tactmon.Text.Tokenizer.{tokenize_text, starts_with}
use tactmon.Text.Tokenizer.Fields.{Lacks, text_of, fields_of, kept}
use tactmon.Text.Tokenizer.Separators.{ended_by_text, tokenize_text-text_of}
use mathlib.Core.List.{append_assoc, append-nil}

-- Each line parses to its record.
abbrev pub Parses : {A : Type 0} → (Bytes → Result (Option A)) → List Bytes → List A → Type 0
Parses parse [] [] = Unit {0}
Parses parse (l ∷ ls) (r ∷ rs) = (parse l ≡ ok (some r)) × Parses parse ls rs
Parses parse _ _ = ⊥

records_of-Parses :
    {A : Type 0} (parse : Bytes → Result (Option A)) (ls : List Bytes) (rs : List A)
    → Parses parse ls rs
    → records_of parse ls ≡ ok rs
unfolding records_of
records_of-Parses parse [] [] h = refl
records_of-Parses parse [] (r ∷ rs) h = absurd h
records_of-Parses parse (l ∷ ls) [] h = absurd h
records_of-Parses parse (l ∷ ls) (r ∷ rs) (p, h) = rw (p, records_of-Parses parse ls rs h)

versions_lines-Parses :
    (ls : List Bytes) (rs : List VersionsRecord) (v : Versions)
    → Parses versions_record ls rs
    → versions_lines v ls ≡ ok (record v { records = v.records ++ rs })
unfolding versions_lines versions_line
versions_lines-Parses [] [] v h = rw (append-nil v.records)
versions_lines-Parses [] (r ∷ rs) v h = absurd h
versions_lines-Parses (l ∷ ls) [] v h = absurd h
versions_lines-Parses (l ∷ ls) (r ∷ rs) v (p, h) =
    rw (p, versions_lines-Parses ls rs (record v { records = v.records ++ (r ∷ []) }) h)
      (ap (λ x. ok (record v { records = x })) (append_assoc v.records (r ∷ []) rs))

-- The lines that are kept, where each is ended by a line break and none is empty.
abbrev pub NoneEmpty : List Bytes → Type 0
NoneEmpty = All (λ l. is_empty l ≡ false)

abbrev pub page : List Bytes → Bytes
page lines = text_of (ended_by_text crlf lines) []

fields_of-NoneEmpty :
    (ls : List Bytes) → NoneEmpty ls → fields_of true (ended_by_text crlf ls) [] ≡ ls
unfolding fields_of kept
fields_of-NoneEmpty [] h = refl
fields_of-NoneEmpty ([] ∷ ls) (p, h) = cc
fields_of-NoneEmpty ((c ∷ l) ∷ ls) (p, h) = ap (λ fs. (c ∷ l) ∷ fs) (fields_of-NoneEmpty ls h)

tokenize_text-page :
    (ls : List Bytes)
    → NoneEmpty ls
    → All (Lacks 0x0d) ls
    → tokenize_text (page ls) crlf true ≡ ok ls
tokenize_text-page ls n l =
    tokenize_text-text_of 0x0d (0x0a ∷ []) ls [] true l tt ∙ ap ok (fields_of-NoneEmpty ls n)

-- An answer to `bgdl` made of lines that are not empty, hold no carriage return and all parse
-- gives their records but for the first, which the source takes for the header. An answer to
-- `summary` made of such lines gives the records of them all.
pub parse_pages :
    (l : Bytes) (ls : List Bytes) (r : VersionsRecord) (rs : List VersionsRecord) (ms : List Bytes)
    (m : SummaryRecord) (ss : List SummaryRecord)
    → NoneEmpty (l ∷ ls) × All (Lacks 0x0d) (l ∷ ls) × Parses bgdl_record (l ∷ ls) (r ∷ rs)
    → NoneEmpty ms × All (Lacks 0x0d) ms × Parses summary_record ms (m ∷ ss)
    → (parse_bgdl (page (l ∷ ls)) ≡ ok (some rs)) × (parse_summary (page ms) ≡ ok (some (m ∷ ss)))
unfolding parse_bgdl parse_summary
parse_pages l ls r rs ms m ss (n, k, h) (n', k', h') = (
  rw (tokenize_text-page (l ∷ ls) n k, records_of-Parses bgdl_record (l ∷ ls) (r ∷ rs) h)
      (unfold without_first in refl),
  rw (tokenize_text-page ms n' k', records_of-Parses summary_record ms (m ∷ ss) h')
      (unfold unless_empty in refl),
)

seqn_tokens : (rest : Bytes) → starts_with seqn_prefix (seqn_prefix ++ rest) ≡ true
unfolding starts_with
seqn_tokens rest = refl

versions_line-header :
    (v : Versions) (l : Bytes)
    → versions_record l ≡ ok none
    → starts_with seqn_prefix l ≡ false
    → versions_line v l ≡ ok v
unfolding versions_line
versions_line-header v l h k = rw (h, k)

versions_line-seqn :
    (v : Versions) (rest : Bytes) (n : ℕ)
    → versions_record (seqn_prefix ++ rest) ≡ ok none
    → from_chars size_mod rest ≡ some n
    → versions_line v (seqn_prefix ++ rest) ≡ ok (record v { sequence_id = n })
unfolding versions_line starts_with
versions_line-seqn v rest n h k = rw (h, k)

-- An answer to `versions` made of lines that are not empty and hold no carriage return, a header
-- that is no record, the sequence number and rows that parse, gives the records of the rows and
-- the number; where there is no row, or the number is 0, it gives nothing.
pub parse_versions-page :
    (header rest : Bytes) (n : ℕ) (ls : List Bytes) (rs : List VersionsRecord)
    → NoneEmpty (header ∷ (seqn_prefix ++ rest) ∷ ls)
    → All (Lacks 0x0d) (header ∷ (seqn_prefix ++ rest) ∷ ls)
    → versions_record header ≡ ok none
    → starts_with seqn_prefix header ≡ false
    → versions_record (seqn_prefix ++ rest) ≡ ok none
    → from_chars size_mod rest ≡ some n
    → Parses versions_record ls rs
    → parse_versions (page (header ∷ (seqn_prefix ++ rest) ∷ ls))
      ≡ ok (if is_empty rs || n == 0 then none else some (record { records = rs; sequence_id = n }))
unfolding parse_versions
parse_versions-page header rest n ls rs ne lacks h k h' e p =
    let start : Versions = record { records = []; sequence_id = 0 } in
    let numbered : Versions = record { records = []; sequence_id = n } in
    let lines : versions_lines start (header ∷ (seqn_prefix ++ rest) ∷ ls)
        ≡ ok (record { records = rs; sequence_id = n }) =
      unfold versions_lines in
      rw (versions_line-header start header h k, versions_line-seqn start rest n h' e)
        (versions_lines-Parses ls rs numbered p) in
    rw (tokenize_text-page (header ∷ (seqn_prefix ++ rest) ∷ ls) ne lacks, lines)

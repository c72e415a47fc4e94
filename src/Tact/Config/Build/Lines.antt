-- ===== src/Tact/Config/Build/Lines.antt =====
-- The lines of a build configuration that `Parse` does not survive, and those that it passes over.
use tactmon.Prelude.{
  ◌>>=◌, ℕ, ◌*◌, ◌≡◌, refl, sym, ap, ◌∙◌, true, false, Option, none, some, List, [], ◌∷◌, ◌++◌,
  arith, Bytes, length, All, undefined, Result, ok, fault,
}
use tactmon.Tact.Config.{token, first_char}
use tactmon.Tact.Config.Build.{
  BuildConfig, Manifest, empty_config, keys_handler, parse_line, parse_lines, parse_contents,
}
use tactmon.Tact.Key.Laws.{try_parse_even}
use tactmon.Text.Tokenizer.{tokenize_char}
use tactmon.Text.Tokenizer.Fields.{Lacks, text_of, ended_by, fields_of, kept, tokenize_char-text_of}
use mathlib.Core.List.{append_assoc}

-- A step of the loop, behind the line.
after_line : Result (Option BuildConfig) → List Bytes → Result (Option BuildConfig)
after_line r lines = do next ← r; elim next [ none ↦ ok none | some c ↦ parse_lines c lines ]

parse_lines-step :
    (cfg : BuildConfig) (line : Bytes) (lines : List Bytes)
    → parse_lines cfg (line ∷ lines) ≡ after_line (parse_line cfg line) lines
unfolding parse_lines after_line
parse_lines-step cfg line lines = refl

after_line-inv :
    (r : Result (Option BuildConfig)) (lines : List Bytes) (cfg' : BuildConfig)
    → after_line r lines ≡ ok (some cfg')
    → (c : BuildConfig) × (r ≡ ok (some c)) × (parse_lines c lines ≡ ok (some cfg'))
unfolding after_line
after_line-inv (fault f) lines cfg' h = absurd (grind arith)
after_line-inv (ok none) lines cfg' h = absurd (grind arith)
after_line-inv (ok (some c)) lines cfg' h = (c, refl, h)

after_line-some :
    (c : BuildConfig) (lines : List Bytes) → after_line (ok (some c)) lines ≡ parse_lines c lines
unfolding after_line
after_line-some c lines = refl

parse_lines-nil : (cfg cfg' : BuildConfig) → parse_lines cfg [] ≡ ok (some cfg') → cfg ≡ cfg'
unfolding parse_lines
parse_lines-nil cfg cfg' h = cc

parse_lines-append :
    (before after : List Bytes) (cfg cfg' : BuildConfig)
    → parse_lines cfg before ≡ ok (some cfg')
    → parse_lines cfg (before ++ after) ≡ parse_lines cfg' after
parse_lines-append [] after cfg cfg' h = ap (λ c. parse_lines c after) (parse_lines-nil cfg cfg' h)
parse_lines-append (l ∷ before) after cfg cfg' h =
    let (c, e, h') =
      after_line-inv (parse_line cfg l) before cfg' (sym (parse_lines-step cfg l before) ∙ h) in
    parse_lines-step cfg l (before ++ after)
    ∙ ap (λ r. after_line r (before ++ after)) e
    ∙ (after_line-some c (before ++ after) ∙ parse_lines-append before after c cfg' h')

parse_lines-blank :
    (before after : List Bytes) (cfg cfg' : BuildConfig)
    → parse_lines cfg before ≡ ok (some cfg')
    → parse_lines cfg (before ++ ([] ∷ after)) ≡ fault undefined
parse_lines-blank before after cfg cfg' h =
    parse_lines-append before ([] ∷ after) cfg cfg' h
    ∙ (unfold parse_lines parse_line first_char in refl)

-- The fields of lines that each have their end are those lines, with what stands behind them.
fields_of-lines :
    (ls : List Bytes) (last : Bytes)
    → fields_of false (ended_by b'\n' ls) last ≡ ls ++ kept true last []
unfolding fields_of kept
fields_of-lines [] last = refl
fields_of-lines (l ∷ ls) last = ap (λ fs. l ∷ fs) (fields_of-lines ls last)

parse_contents-lines :
    (text blank : Bytes) (before after : List Bytes)
    → tokenize_char text b'\n' false ≡ ok (before ++ (blank ∷ after))
    → parse_contents text ≡ parse_lines empty_config (before ++ (blank ∷ after))
unfolding parse_contents
parse_contents-lines text blank [] after e = rw (e, parse_contents) refl
parse_contents-lines text blank (l ∷ before) after e = rw (e, parse_contents) refl

-- The text of a build configuration with a blank line, behind any lines that are read, makes the
-- parser access a character that is not there, whatever lines follow.
pub parse_contents-blank :
    (before after : List Bytes) (last : Bytes) (cfg : BuildConfig)
    → All (Lacks b'\n') (before ++ ([] ∷ after))
    → Lacks b'\n' last
    → parse_lines empty_config before ≡ ok (some cfg)
    → parse_contents (text_of (ended_by b'\n' (before ++ ([] ∷ after))) last) ≡ fault undefined
parse_contents-blank before after last cfg h l r =
    let ls = before ++ ([] ∷ after) in
    let more = after ++ kept true last [] in
    let split : ls ++ kept true last [] ≡ before ++ ([] ∷ more) =
      append_assoc before ([] ∷ after) (kept true last []) in
    parse_contents-lines (text_of (ended_by b'\n' ls) last) [] before more
      (tokenize_char-text_of b'\n' ls last false h l ∙ ap ok (fields_of-lines ls last ∙ split))
    ∙ parse_lines-blank before more empty_config cfg r

-- On a line of a name and one key of an even number of characters, the handler of "install" and
-- "encoding" reads a token that is not there.
pub keys_handler-one_key :
    (m : Manifest) (name value : Bytes) (n : ℕ)
    → length value ≡ 2 * n
    → keys_handler m (name ∷ value ∷ []) ≡ fault undefined
unfolding keys_handler token
keys_handler-one_key m name value n e = let (k, r, l) = try_parse_even value n e in rw (r, token)

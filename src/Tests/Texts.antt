-- ===== src/Tests/Texts.antt =====
-- The theorems of libtactmon/detail/Tokenizer and of the numbers at concrete inputs.
use tactmon.Prelude.{◌≡◌, true, false, List, [], ◌∷◌, arith, Bytes, codes, ok}
use tactmon.Text.Tokenizer.{tokenize_char, tokenize_any, tokenize_text}
use tactmon.Text.Tokenizer.Fields.{tokenize_char-text_of}
use tactmon.Text.Tokenizer.Total.{tokenize_total}

tokenize_char-text_of_example :
    tokenize_char (codes "a||b|") b'|' false ≡ ok (codes "a" ∷ [] ∷ codes "b" ∷ [])
unfolding tactmon.Text.Tokenizer.Fields.fields_of tactmon.Text.Tokenizer.Fields.kept
tokenize_char-text_of_example =
    tokenize_char-text_of b'|' (codes "a" ∷ [] ∷ codes "b" ∷ []) [] false (ground arith)
      (ground arith)

tokenize_total_example :
    ((r : List Bytes) × (tokenize_char (codes "a|b") b'|' true ≡ ok r))
    × ((r : List Bytes) × (tokenize_any (codes "a|b") (codes " =") true ≡ ok r))
    × ((r : List Bytes) × (tokenize_text (codes "a|b") (codes "--") true ≡ ok r))
tokenize_total_example =
    tokenize_total (codes "a|b") (codes " =") (codes "--") b'|' true (omega arith)

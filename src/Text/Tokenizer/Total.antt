-- ===== src/Text/Tokenizer/Total.antt =====
-- The loop of `Tokenize` ends.
use tactmon.Prelude.{
  ℕ, zero, suc, ◌+◌, ◌≤◌, ◌<◌, ◌≡◌, refl, inl, inr, Bool, Option, List, [], ◌∷◌, arith, Bytes,
  Option-cases, length, take, drop, length-drop, ok,
}
use tactmon.Text.Tokenizer.{
  tokenize_with, push, tokenize_char, tokenize_any, tokenize_text, find_char, find_any, find_text,
}

tokenize_with_total :
    (find : Bytes → Option ℕ) (width : ℕ) (remove : Bool) (fuel : ℕ) (input : Bytes)
    → 0 < width
    → length input ≤ fuel
    → (tokens : List Bytes) × (tokenize_with find width remove fuel input ≡ ok tokens)
unfolding tokenize_with
tokenize_with_total find width remove fuel [] w h = ([], refl)
tokenize_with_total find width remove zero (c ∷ cs) w h = absurd (omega arith)
tokenize_with_total find width remove (suc fuel) (c ∷ cs) w h =
    elim (Option-cases (find (c ∷ cs))) [
      | inl missing ↦ (push remove (c ∷ cs) [], rw (missing, tokenize_with))
      | inr (pos, found) ↦
          let rest = drop (pos + width) (c ∷ cs) in
          let (tokens, e) =
            tokenize_with_total find width remove fuel rest w
              (omega (arith, length-drop (pos + width) (c ∷ cs))) in
          (push remove (take pos (c ∷ cs)) tokens, rw (found, tokenize_with, e))
    ]

-- `Tokenize` by a character, by a set of them, and by a text that is not empty returns on every
-- input.
pub tokenize_total :
    (input tokens token : Bytes) (c : ℕ) (remove : Bool)
    → 0 < length token
    → ((r : List Bytes) × (tokenize_char input c remove ≡ ok r))
      × ((r : List Bytes) × (tokenize_any input tokens remove ≡ ok r))
      × ((r : List Bytes) × (tokenize_text input token remove ≡ ok r))
unfolding tokenize_char tokenize_any tokenize_text
tokenize_total input tokens token c remove h = (
  tokenize_with_total (find_char c) 1 remove (length input) input (omega arith) (omega arith),
  tokenize_with_total (find_any tokens) 1 remove (length input) input (omega arith) (omega arith),
  tokenize_with_total (find_text token) (length token) remove (length input) input h (omega arith),
)

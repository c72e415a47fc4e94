-- ===== src/Text/Tokenizer.antt =====
-- src/libtactmon/libtactmon/detail/Tokenizer.hpp: the overloads of `Tokenize`.
pub mod Total
pub mod Fields
pub mod Separators
use tactmon.Prelude.{
  ℕ, zero, suc, ◌+◌, Bool, true, false, not, ◌&&◌, ◌||◌, Option, none, some, List, [], ◌∷◌, Bytes,
  ltb, ◌==◌, if◌then◌else◌, length, take, drop, is_empty, undefined, hangs, Result, ok, fault,
  ◌>>=◌,
}

-- `std::string_view::find` of a character, and of a text.
unfoldable pub find_char : ℕ → Bytes → Option ℕ
find_char c [] = none
find_char c (x ∷ xs) =
    if x == c then some 0 else elim (find_char c xs) [ none ↦ none | some i ↦ some (suc i) ]

unfoldable pub starts_with : Bytes → Bytes → Bool
starts_with [] xs = true
starts_with (t ∷ ts) [] = false
starts_with (t ∷ ts) (x ∷ xs) = x == t && starts_with ts xs

unfoldable pub find_text : Bytes → Bytes → Option ℕ
unfolding starts_with
find_text token [] = if is_empty token then some 0 else none
find_text token (x ∷ xs) =
    if starts_with token (x ∷ xs)
    then some 0
    else elim (find_text token xs) [ none ↦ none | some i ↦ some (suc i) ]

-- The inner loop over a set of characters: `best` is `tokenPosition`, nothing for its start value.
unfoldable pub earlier : Option ℕ → Option ℕ → Option ℕ
earlier none best = best
earlier (some i) none = some i
earlier (some i) (some j) = if ltb i j then some i else some j

unfoldable pub find_any_loop : Bytes → Bytes → Option ℕ → Option ℕ
unfolding earlier find_char
find_any_loop [] input best = best
find_any_loop (t ∷ ts) input best = find_any_loop ts input (earlier (find_char t input) best)

unfoldable pub find_any : Bytes → Bytes → Option ℕ
unfolding find_any_loop
find_any tokens input = find_any_loop tokens input none

-- `if (!removeEmptyTokens || !elem.empty()) result.push_back(elem);`
unfoldable pub push : Bool → Bytes → List Bytes → List Bytes
push remove_empty elem rest = if not remove_empty || not (is_empty elem) then elem ∷ rest else rest

-- The loop that the overloads share: they differ in how they find the next token, and in its width.
-- The tokens are given in the order in which they are pushed. Each round takes a character at
-- least where the token is not empty, so a round for each character is enough.
unfoldable pub tokenize_with : (Bytes → Option ℕ) → ℕ → Bool → ℕ → Bytes → Result (List Bytes)
unfolding push
tokenize_with find width remove_empty fuel [] = ok []
tokenize_with find width remove_empty zero (c ∷ cs) = fault hangs
tokenize_with find width remove_empty (suc fuel) (c ∷ cs) = elim (find (c ∷ cs)) [
  | none ↦ ok (push remove_empty (c ∷ cs) [])
  | some pos ↦ (do
    rest ← tokenize_with find width remove_empty fuel (drop (pos + width) (c ∷ cs))
    ok (push remove_empty (take pos (c ∷ cs)) rest))
]

-- `Tokenize(input, std::string_view token, removeEmptyTokens)`.
unfoldable pub tokenize_text : Bytes → Bytes → Bool → Result (List Bytes)
tokenize_text input token remove_empty =
    tokenize_with (find_text token) (length token) remove_empty (length input) input

-- `Tokenize(input, char token, removeEmptyTokens)`.
unfoldable pub tokenize_char : Bytes → ℕ → Bool → Result (List Bytes)
tokenize_char input token remove_empty =
    tokenize_with (find_char token) 1 remove_empty (length input) input

-- `Tokenize(input, std::span<const char> tokens, removeEmptyTokens)`.
unfoldable pub tokenize_any : Bytes → Bytes → Bool → Result (List Bytes)
tokenize_any input tokens remove_empty =
    tokenize_with (find_any tokens) 1 remove_empty (length input) input

-- `Tokenize(input, std::span<const std::string_view> tokens, removeEmptyTokens)`: `selectedToken`
-- points to the loop's own copy of the token, and is read after the loop.
unfoldable pub any_found : List Bytes → Bytes → Bool
any_found [] input = false
any_found (t ∷ ts) input = elim (find_text t input) [ none ↦ any_found ts input | some i ↦ true ]

unfoldable pub tokenize_any_text : Bytes → List Bytes → Bool → Result (List Bytes)
unfolding any_found push
tokenize_any_text [] tokens remove_empty = ok []
tokenize_any_text (c ∷ cs) tokens remove_empty =
    if any_found tokens (c ∷ cs) then fault undefined else ok (push remove_empty (c ∷ cs) [])

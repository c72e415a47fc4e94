-- ===== src/Text/Tokenizer/Fields.antt =====
-- Which tokens `Tokenize` gives: the fields between the separators, but for an empty last one.
use tactmon.Prelude.{
  ℕ, zero, suc, ◌+◌, ◌≤◌, ◌<◌, ◌≡◌, refl, sym, ap, ◌∙◌, Bool, true, false, Option, none, some, List,
  [], ◌∷◌, ◌++◌, arith, Bytes, ◌==◌, length, take, drop, All, length-append, take-append,
  drop-append, drop-drop, ok, ◌>>=◌,
}
use tactmon.Text.Tokenizer.{tokenize_with, push, tokenize_char, find_char}

-- A field and the separator behind it.
abbrev pub Piece : Type 0
Piece = Bytes × Bytes

-- The text that pieces make up, in front of a last field.
abbrev pub text_of : List Piece → Bytes → Bytes
text_of [] last = last
text_of ((f, sep) ∷ ps) last = f ++ (sep ++ text_of ps last)

-- A field in front of others: an empty one is dropped where empty ones are removed.
unfoldable pub kept : Bool → Bytes → List Bytes → List Bytes
kept false field rest = field ∷ rest
kept true [] rest = rest
kept true (c ∷ cs) rest = (c ∷ cs) ∷ rest

push-kept :
    (remove : Bool) (field : Bytes) (rest : List Bytes)
    → push remove field rest ≡ kept remove field rest
unfolding push kept
push-kept false field rest = refl
push-kept true [] rest = refl
push-kept true (c ∷ cs) rest = refl

push-cons : (remove : Bool) (c : ℕ) (cs : Bytes) → push remove (c ∷ cs) [] ≡ (c ∷ cs) ∷ []
unfolding push
push-cons true c cs = refl
push-cons false c cs = refl

-- The fields that are kept; an empty last field never is.
unfoldable pub fields_of : Bool → List Piece → Bytes → List Bytes
unfolding kept
fields_of remove [] last = kept true last []
fields_of remove ((f, sep) ∷ ps) last = kept remove f (fields_of remove ps last)

module _ (find : Bytes → Option ℕ) (width : ℕ) where
  -- What the search finds in a field with a separator behind it.
  pub record IsFound (f sep : Bytes) : Type 0 where
    pub sep_width : length sep ≡ width
    pub found : (rest : Bytes) → find (f ++ (sep ++ rest)) ≡ some (length f)

  abbrev pub AllFound : List Piece → Type 0
  AllFound [] = Unit {0}
  AllFound ((f, sep) ∷ ps) = IsFound f sep × AllFound ps

module _ (find : Bytes → Option ℕ) (width : ℕ) (remove : Bool) where
  -- One round, on an input that is not empty and in which the search finds something.
  round :
      (fuel pos : ℕ) (input : Bytes)
      → 0 < length input
      → find input ≡ some pos
      → tokenize_with find width remove (suc fuel) input ≡ (do
        tokens ← tokenize_with find width remove fuel (drop (pos + width) input)
        ok (push remove (take pos input) tokens))
  unfolding tokenize_with
  round fuel pos [] l e = absurd (omega arith)
  round fuel pos (c ∷ cs) l e = rw (e, tokenize_with)

  step :
      (fuel : ℕ) (f sep rest : Bytes)
      → 0 < width
      → IsFound find width f sep
      → tokenize_with find width remove (suc fuel) (f ++ (sep ++ rest))
        ≡ (do tokens ← tokenize_with find width remove fuel rest; ok (push remove f tokens))
  step fuel f sep rest w p =
      let input = f ++ (sep ++ rest) in
      let d : drop (length f + width) input ≡ rest =
        sym (drop-drop (length f) width (length f + width) input refl)
        ∙ ap (drop width) (drop-append (length f) f (sep ++ rest) refl)
        ∙ drop-append width sep rest p.sep_width in
      let t : take (length f) input ≡ f = take-append (length f) f (sep ++ rest) refl in
      round fuel (length f) input
        (omega (arith, p.sep_width, length-append f (sep ++ rest), length-append sep rest))
        (p.found rest)
      ∙ rw (d, t)

  pub tokenize_with-text_of :
      (ps : List Piece) (last : Bytes) (fuel : ℕ)
      → 0 < width
      → AllFound find width ps
      → find last ≡ none
      → length (text_of ps last) ≤ fuel
      → tokenize_with find width remove fuel (text_of ps last) ≡ ok (fields_of remove ps last)
  unfolding fields_of
  tokenize_with-text_of [] [] fuel w a e h = unfold tokenize_with kept in refl
  tokenize_with-text_of [] (c ∷ cs) zero w a e h = absurd (omega arith)
  tokenize_with-text_of [] (c ∷ cs) (suc fuel) w a e h =
      unfold tokenize_with kept in rw e (ap ok (push-cons remove c cs))
  tokenize_with-text_of ((f, sep) ∷ ps) last zero w (p, a) e h = absurd (
      omega (
        arith,
        p.sep_width,
        length-append f (sep ++ text_of ps last),
        length-append sep (text_of ps last),
      ))
  tokenize_with-text_of ((f, sep) ∷ ps) last (suc fuel) w (p, a) e h =
      step fuel f sep (text_of ps last) w p
      ∙ rw
          (tokenize_with-text_of ps last fuel w a e (
            omega (
              arith,
              p.sep_width,
              length-append f (sep ++ text_of ps last),
              length-append sep (text_of ps last),
            )))
          (ap ok (push-kept remove f (fields_of remove ps last)))

-- A field that does not hold the character.
abbrev pub Lacks : ℕ → Bytes → Type 0
Lacks c = All (λ x. (x == c) ≡ false)

pub find_char-Lacks : (c : ℕ) (f : Bytes) → Lacks c f → find_char c f ≡ none
unfolding find_char
find_char-Lacks c [] l = refl
find_char-Lacks c (x ∷ f) (h, l) = rw (h, find_char-Lacks c f l)

pub find_char-found :
    (c : ℕ) (f rest : Bytes) → Lacks c f → find_char c (f ++ (c ∷ rest)) ≡ some (length f)
unfolding find_char
find_char-found c [] rest l = let e : (c == c) ≡ true = ground arith in rw e
find_char-found c (x ∷ f) rest (h, l) = rw (h, find_char-found c f rest l)

char-IsFound : (c : ℕ) (f : Bytes) → Lacks c f → IsFound (find_char c) 1 f (c ∷ [])
char-IsFound c f l = record { sep_width = refl; found = λ rest. find_char-found c f rest l }

-- The pieces that one character ends.
abbrev pub ended_by : ℕ → List Bytes → List Piece
ended_by c [] = []
ended_by c (f ∷ fs) = (f, c ∷ []) ∷ ended_by c fs

ended_by-AllFound :
    (c : ℕ) (fs : List Bytes) → All (Lacks c) fs → AllFound (find_char c) 1 (ended_by c fs)
ended_by-AllFound c [] l = tt
ended_by-AllFound c (f ∷ fs) (h, l) = (char-IsFound c f h, ended_by-AllFound c fs l)

-- On fields that do not hold the character, each ended by it, and a last field, `Tokenize` by the
-- character gives these fields: all, or those that are not empty, but an empty last one in
-- neither case.
pub tokenize_char-text_of :
    (c : ℕ) (fs : List Bytes) (last : Bytes) (remove : Bool)
    → All (Lacks c) fs
    → Lacks c last
    → tokenize_char (text_of (ended_by c fs) last) c remove
      ≡ ok (fields_of remove (ended_by c fs) last)
unfolding tokenize_char
tokenize_char-text_of c fs last remove h l =
    tokenize_with-text_of (find_char c) 1 remove (ended_by c fs) last _ (omega arith)
      (ended_by-AllFound c fs h) (find_char-Lacks c last l) (omega arith)

-- ===== src/Text/Tokenizer/Separators.antt =====
-- The fields between separators that are a text, or one of a set of characters.
use tactmon.Prelude.{
  ℕ, suc, ◌≤◌, ◌≡◌, refl, ◌⊎◌, inl, inr, Bool, true, Option, none, some, List, [], ◌∷◌, ◌++◌, arith,
  Bytes, ltb, ◌==◌, le→ltb, Bool-cases, length, All, ok,
}
use tactmon.Text.Tokenizer.{
  tokenize_any, tokenize_text, find_char, find_any, find_any_loop, find_text, starts_with, earlier,
}
use tactmon.Text.Tokenizer.Fields.{
  Piece, text_of, fields_of, AllFound, Lacks, tokenize_with-text_of, find_char-Lacks,
  find_char-found,
}

starts_with-append : (t rest : Bytes) → starts_with t (t ++ rest) ≡ true
unfolding starts_with
starts_with-append [] rest = refl
starts_with-append (c ∷ t) rest =
    let e : (c == c) ≡ true = ground arith in rw e (starts_with-append t rest)

find_text-found :
    (c : ℕ) (t f rest : Bytes)
    → Lacks c f
    → find_text (c ∷ t) (f ++ ((c ∷ t) ++ rest)) ≡ some (length f)
unfolding find_text
find_text-found c t [] rest l = rw (starts_with-append (c ∷ t) rest)
find_text-found c t (x ∷ f) rest (h, l) = rw (h, find_text-found c t f rest l)

find_text-Lacks : (c : ℕ) (t f : Bytes) → Lacks c f → find_text (c ∷ t) f ≡ none
unfolding find_text
find_text-Lacks c t [] l = refl
find_text-Lacks c t (x ∷ f) (h, l) = rw (h, find_text-Lacks c t f l)

-- The pieces that one text ends.
abbrev pub ended_by_text : Bytes → List Bytes → List Piece
ended_by_text t [] = []
ended_by_text t (f ∷ fs) = (f, t) ∷ ended_by_text t fs

text-AllFound :
    (c : ℕ) (t : Bytes) (fs : List Bytes)
    → All (Lacks c) fs
    → AllFound (find_text (c ∷ t)) (length (c ∷ t)) (ended_by_text (c ∷ t) fs)
text-AllFound c t [] l = tt
text-AllFound c t (f ∷ fs) (h, l) = (
  record { sep_width = refl; found = λ rest. find_text-found c t f rest h },
  text-AllFound c t fs l,
)

-- On fields that do not hold the first character of a text, each ended by the text, and a last
-- field, `Tokenize` by the text gives these fields: all, or those that are not empty, but an
-- empty last one in neither case.
pub tokenize_text-text_of :
    (c : ℕ) (t : Bytes) (fs : List Bytes) (last : Bytes) (remove : Bool)
    → All (Lacks c) fs
    → Lacks c last
    → tokenize_text (text_of (ended_by_text (c ∷ t) fs) last) (c ∷ t) remove
      ≡ ok (fields_of remove (ended_by_text (c ∷ t) fs) last)
unfolding tokenize_text
tokenize_text-text_of c t fs last remove h l =
    tokenize_with-text_of (find_text (c ∷ t)) (length (c ∷ t)) remove _ last _ (omega arith)
      (text-AllFound c t fs h) (find_text-Lacks c t last l) (omega arith)

-- A search result that is not before `n`.
abbrev AtLeast : ℕ → Option ℕ → Type 0
AtLeast n none = Unit {0}
AtLeast n (some i) = n ≤ i

zero-AtLeast : (o : Option ℕ) → AtLeast 0 o
zero-AtLeast none = tt
zero-AtLeast (some i) = omega arith

suc-AtLeast :
    (n : ℕ) (o : Option ℕ)
    → AtLeast n o
    → AtLeast (suc n) (elim o [ none ↦ none | some i ↦ some (suc i) ])
suc-AtLeast n none a = tt
suc-AtLeast n (some i) a = omega arith

find_char-AtLeast :
    (c : ℕ) (f rest : Bytes) → Lacks c f → AtLeast (length f) (find_char c (f ++ rest))
unfolding find_char
find_char-AtLeast c [] rest l = zero-AtLeast (find_char c rest)
find_char-AtLeast c (x ∷ f) rest (h, l) =
    rw h (suc-AtLeast (length f) (find_char c (f ++ rest)) (find_char-AtLeast c f rest l))

earlier-AtLeast : (n : ℕ) (a b : Option ℕ) → AtLeast n a → AtLeast n b → AtLeast n (earlier a b)
unfolding earlier
earlier-AtLeast n none b p q = q
earlier-AtLeast n (some i) none p q = p
earlier-AtLeast n (some i) (some j) p q = elim (Bool-cases (ltb i j)) [
  | inl lt ↦ rw lt p
  | inr ge ↦ rw ge q
]

earlier-best : (n : ℕ) (a : Option ℕ) → AtLeast n a → earlier a (some n) ≡ some n
unfolding earlier
earlier-best n none p = refl
earlier-best n (some i) p = rw (le→ltb i n p)

earlier-new : (n : ℕ) (b : Option ℕ) → AtLeast n b → earlier (some n) b ≡ some n
unfolding earlier
earlier-new n none p = refl
earlier-new n (some j) p = ground arith

-- A field that holds none of the characters.
abbrev pub LacksAll : Bytes → Bytes → Type 0
LacksAll [] f = Unit {0}
LacksAll (t ∷ ts) f = Lacks t f × LacksAll ts f

-- The character is one of the set.
abbrev pub OneOf : ℕ → Bytes → Type 0
OneOf c [] = ⊥
OneOf c (t ∷ ts) = (c ≡ t) ⊎ OneOf c ts

loop_best :
    (ts f rest : Bytes)
    → LacksAll ts f
    → find_any_loop ts (f ++ rest) (some (length f)) ≡ some (length f)
unfolding find_any_loop
loop_best [] f rest l = refl
loop_best (t ∷ ts) f rest (h, l) =
    rw (earlier-best (length f) (find_char t (f ++ rest)) (find_char-AtLeast t f rest h))
      (loop_best ts f rest l)

loop-found :
    (ts f rest : Bytes) (c : ℕ) (best : Option ℕ)
    → LacksAll ts f
    → OneOf c ts
    → AtLeast (length f) best
    → find_any_loop ts (f ++ (c ∷ rest)) best ≡ some (length f)
unfolding find_any_loop
loop-found [] f rest c best l o b = absurd o
loop-found (t ∷ ts) f rest c best (h, l) (inl e) b =
    let first : find_char t (f ++ (c ∷ rest)) ≡ some (length f) =
      rw e (find_char-found t f rest h) in
    rw (first, earlier-new (length f) best b) (loop_best ts f (c ∷ rest) l)
loop-found (t ∷ ts) f rest c best (h, l) (inr o) b = loop-found ts f rest c _ l o (
    earlier-AtLeast (length f) (find_char t (f ++ (c ∷ rest))) best
      (find_char-AtLeast t f (c ∷ rest) h) b)

loop-lacks : (ts f : Bytes) → LacksAll ts f → find_any_loop ts f none ≡ none
unfolding find_any_loop
loop-lacks [] f l = refl
loop-lacks (t ∷ ts) f (h, l) = rw (find_char-Lacks t f h) (unfold earlier in loop-lacks ts f l)

-- Fields, each with the separator behind it.
abbrev pub Separated : Bytes → List (Bytes × ℕ) → Type 0
Separated ts [] = Unit {0}
Separated ts ((f, c) ∷ ps) = LacksAll ts f × OneOf c ts × Separated ts ps

abbrev pub pieces : List (Bytes × ℕ) → List Piece
pieces [] = []
pieces ((f, c) ∷ ps) = (f, c ∷ []) ∷ pieces ps

any-AllFound :
    (ts : Bytes) (ps : List (Bytes × ℕ)) → Separated ts ps → AllFound (find_any ts) 1 (pieces ps)
unfolding find_any
any-AllFound ts [] s = tt
any-AllFound ts ((f, c) ∷ ps) (l, o, s) = (
  record { sep_width = refl; found = λ rest. loop-found ts f rest c none l o tt },
  any-AllFound ts ps s,
)

-- On fields that hold no character of a set, each ended by one of the set, and a last field,
-- `Tokenize` by the set gives these fields: all, or those that are not empty, but an empty last
-- one in neither case.
pub tokenize_any-text_of :
    (ts : Bytes) (ps : List (Bytes × ℕ)) (last : Bytes) (remove : Bool)
    → Separated ts ps
    → LacksAll ts last
    → tokenize_any (text_of (pieces ps) last) ts remove ≡ ok (fields_of remove (pieces ps) last)
unfolding tokenize_any
tokenize_any-text_of ts ps last remove s l =
    tokenize_with-text_of (find_any ts) 1 remove (pieces ps) last _ (omega arith)
      (any-AllFound ts ps s) (unfold find_any in loop-lacks ts last l) (omega arith)

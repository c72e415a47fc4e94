-- ===== src/Backend/Orm/Renders.antt =====
-- What `render_to` adds to a text: pieces, among which the parameters that are numbered in order.
pub mod Components
pub mod Queries
use tactmon.Prelude.{
  ℕ, zero, suc, ◌+◌, ◌≤◌, ◌<◌, ◌≡◌, refl, sym, ap, ◌∙◌, Option, some, List, [], ◌∷◌, ◌++◌, arith,
  Bytes, length, codes, length-append,
}
use tactmon.Backend.Orm.{Component, ValueType, types_of, render_rest, render_all, ◌>>=◌}
use tactmon.Backend.Orm.Digits.{explode}
use mathlib.Core.List.{append-nil, append_assoc}
use mathlib.Core.Path.{subst}

-- Text, a parameter that is numbered here, and a parameter that is used once more.
pub data Piece : Type 0 where
  plain : Bytes → Piece
  numbered bound : ℕ → Piece

pub written : List Piece → Bytes
written [] = []
written (plain t ∷ ps) = t ++ written ps
written (numbered i ∷ ps) = (codes "$" ++ explode i) ++ written ps
written (bound i ∷ ps) = (codes "$" ++ explode i) ++ written ps

pub numbers : List Piece → List ℕ
numbers [] = []
numbers (plain t ∷ ps) = numbers ps
numbers (numbered i ∷ ps) = i ∷ numbers ps
numbers (bound i ∷ ps) = numbers ps

-- The parameters that are used once more have numbers below `n`.
abbrev pub AreBoundBelow : ℕ → List Piece → Type 0
AreBoundBelow n [] = Unit {0}
AreBoundBelow n (plain t ∷ ps) = AreBoundBelow n ps
AreBoundBelow n (numbered i ∷ ps) = AreBoundBelow n ps
AreBoundBelow n (bound i ∷ ps) = (i < n) × AreBoundBelow n ps

-- `n` numbers from `p`.
pub count_from : ℕ → ℕ → List ℕ
count_from p zero = []
count_from p (suc n) = p ∷ count_from (p + 1) n

abbrev pub Render : Type 0
Render = Bytes → ℕ → Option (Bytes × ℕ)

-- At the number `p`, pieces are written behind the text; `n` parameters are numbered, from `p` on.
pub record Writes (f : Render) (n p : ℕ) : Type 0 where
  pub pieces : List Piece
  pub written_eq : (prev : Bytes) → f prev p ≡ some (prev ++ written pieces, p + n)
  pub numbers_eq : numbers pieces ≡ count_from p n
  pub bound_below : AreBoundBelow (p + n) pieces

-- A component writes its pieces, and numbers as many parameters as it has types of arguments.
abbrev pub Renders : Component → ℕ → Type 0
Renders c p = Writes c.render_to (length c.parameter_types) p

abbrev pub RendersAll : List Component → ℕ → Type 0
RendersAll [] p = Unit {0}
RendersAll (c ∷ cs) p = Renders c p × RendersAll cs (p + length c.parameter_types)

written-append : (ps qs : List Piece) → written (ps ++ qs) ≡ written ps ++ written qs
unfolding written
written-append [] qs = refl
written-append (plain t ∷ ps) qs =
    ap (λ u. t ++ u) (written-append ps qs) ∙ sym (append_assoc t (written ps) (written qs))
written-append (numbered i ∷ ps) qs =
    ap (λ u. (codes "$" ++ explode i) ++ u) (written-append ps qs)
    ∙ sym (append_assoc (codes "$" ++ explode i) (written ps) (written qs))
written-append (bound i ∷ ps) qs =
    ap (λ u. (codes "$" ++ explode i) ++ u) (written-append ps qs)
    ∙ sym (append_assoc (codes "$" ++ explode i) (written ps) (written qs))

numbers-append : (ps qs : List Piece) → numbers (ps ++ qs) ≡ numbers ps ++ numbers qs
unfolding numbers
numbers-append [] qs = refl
numbers-append (plain t ∷ ps) qs = numbers-append ps qs
numbers-append (numbered i ∷ ps) qs = ap (λ ns. i ∷ ns) (numbers-append ps qs)
numbers-append (bound i ∷ ps) qs = numbers-append ps qs

AreBoundBelow-append :
    (n m : ℕ) (ps qs : List Piece)
    → n ≤ m
    → AreBoundBelow n ps
    → AreBoundBelow m qs
    → AreBoundBelow m (ps ++ qs)
AreBoundBelow-append n m [] qs l h k = k
AreBoundBelow-append n m (plain t ∷ ps) qs l h k = AreBoundBelow-append n m ps qs l h k
AreBoundBelow-append n m (numbered i ∷ ps) qs l h k = AreBoundBelow-append n m ps qs l h k
AreBoundBelow-append n m (bound i ∷ ps) qs l (b, h) k =
    (omega arith, AreBoundBelow-append n m ps qs l h k)

count_from-append : (p n m : ℕ) → count_from p (n + m) ≡ count_from p n ++ count_from (p + n) m
unfolding count_from
count_from-append p zero m =
    let e : 0 + m ≡ m = omega arith in let q : p + 0 ≡ p = omega arith in rw (e, q) refl
count_from-append p (suc n) m =
    let e : suc n + m ≡ suc (n + m) = omega arith in
    let q : p + suc n ≡ p + 1 + n = omega arith in
    rw (e, q) (ap (λ ns. p ∷ ns) (count_from-append (p + 1) n m))

pub Writes-count : (f : Render) (n m p : ℕ) → n ≡ m → Writes f n p → Writes f m p
Writes-count f n m p e w = subst (λ k. Writes f k p) e w

pub Writes-plain : (t : Bytes) (p : ℕ) → Writes (λ prev q. some (prev ++ t, q)) 0 p
unfolding written numbers count_from
Writes-plain t p = record {
  pieces = plain t ∷ [];
  written_eq = λ prev. let q : p + 0 ≡ p = omega arith in rw (q, append-nil t) refl;
  numbers_eq = refl;
  bound_below = tt;
}

-- A step behind another.
pub Writes-then :
    (f g : Render) (n m p : ℕ)
    → Writes f n p
    → Writes g m (p + n)
    → Writes (λ prev q. f prev q >>= λ r. g r.0 r.1) (n + m) p
Writes-then f g n m p v w = record {
  pieces = v.pieces ++ w.pieces;
  written_eq = λ prev.
      let q : p + (n + m) ≡ p + n + m = omega arith in
      rw (v.written_eq prev) (
        w.written_eq (prev ++ written v.pieces)
        ∙ rw
            (
              q,
              written-append v.pieces w.pieces,
              append_assoc prev (written v.pieces) (written w.pieces),
            )
            refl);
  numbers_eq =
      numbers-append v.pieces w.pieces
      ∙ rw (v.numbers_eq, w.numbers_eq) (sym (count_from-append p n m));
  bound_below =
      let q : p + (n + m) ≡ p + n + m = omega arith in
      rw q (
        AreBoundBelow-append (p + n) (p + n + m) v.pieces w.pieces (omega arith) v.bound_below
          w.bound_below);
}

-- A step behind some text.
pub Writes-behind :
    (t : Bytes) (f : Render) (n p : ℕ) → Writes f n p → Writes (λ prev q. f (prev ++ t) q) n p
unfolding written numbers
Writes-behind t f n p w = record {
  pieces = plain t ∷ w.pieces;
  written_eq = λ prev. w.written_eq (prev ++ t) ∙ rw (append_assoc prev t (written w.pieces)) refl;
  numbers_eq = w.numbers_eq;
  bound_below = w.bound_below;
}

-- A step and some text behind it.
pub Writes-before :
    (t : Bytes) (f : Render) (n p : ℕ)
    → Writes f n p
    → Writes (λ prev q. f prev q >>= λ r. some (r.0 ++ t, r.1)) n p
Writes-before t f n p w =
    Writes-count (λ prev q. f prev q >>= λ r. some (r.0 ++ t, r.1)) (n + 0) n p (omega arith)
      (Writes-then f (λ prev q. some (prev ++ t, q)) n 0 p w (Writes-plain t (p + n)))

length-types :
    (c : Component) (cs : List Component)
    → length (types_of (c ∷ cs)) ≡ length c.parameter_types + length (types_of cs)
unfolding types_of
length-types c cs = length-append c.parameter_types (types_of cs)

Writes-nothing : (p : ℕ) → Writes (λ prev q. some (prev, q)) 0 p
unfolding written numbers count_from
Writes-nothing p = record {
  pieces = [];
  written_eq = λ prev. let q : p + 0 ≡ p = omega arith in rw (q, append-nil prev) refl;
  numbers_eq = refl;
  bound_below = tt;
}

pub render_rest-Writes :
    (token : Bytes) (cs : List Component) (p : ℕ)
    → RendersAll cs p
    → Writes (render_rest token cs) (length (types_of cs)) p
unfolding render_rest
render_rest-Writes token [] p h = unfold types_of in Writes-nothing p
render_rest-Writes token (c ∷ cs) p (h, hs) = Writes-count _ _ _ p (sym (length-types c cs)) (
    Writes-then (λ prev q. c.render_to (prev ++ token) q) (render_rest token cs)
      (length c.parameter_types) (length (types_of cs)) p
      (Writes-behind token c.render_to (length c.parameter_types) p h)
      (render_rest-Writes token cs (p + length c.parameter_types) hs))

pub render_all-Writes :
    (token : Bytes) (cs : List Component) (p : ℕ)
    → RendersAll cs p
    → Writes (render_all token cs) (length (types_of cs)) p
unfolding render_all
render_all-Writes token [] p h = unfold types_of in Writes-nothing p
render_all-Writes token (c ∷ cs) p (h, hs) = Writes-count _ _ _ p (sym (length-types c cs)) (
    Writes-then c.render_to (render_rest token cs) (length c.parameter_types) (length (types_of cs))
      p h (render_rest-Writes token cs (p + length c.parameter_types) hs))

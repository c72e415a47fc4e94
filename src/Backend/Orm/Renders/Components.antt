-- ===== src/Backend/Orm/Renders/Components.antt =====
-- The components of a statement write pieces in which their parameters are numbered in order.
use tactmon.Prelude.{
  ℕ, ◌+◌, ◌<◌, ◌≡◌, refl, sym, ap, Bool, Option, some, List, [], ◌∷◌, ◌++◌, map, arith, Bytes,
  if◌then◌else◌, lt→ltb, length, codes, length-append,
}
use tactmon.Backend.Orm.{Component, ValueType, types_of, render_all, ◌>>=◌}
use tactmon.Backend.Orm.Digits.{explode}
use tactmon.Backend.Orm.Shared.{
  column, column_of, projection, entity, bind_columns, binary_criteria, unary_criteria, behind,
  enclosed, parameter, bound_parameter, constant, order_clause, listed,
}
use tactmon.Backend.Orm.Selectors.{function, alias, over, partition_by}
use tactmon.Backend.Orm.Renders.{
  numbered, bound, written, numbers, count_from, Renders, RendersAll, Writes-count, Writes-plain,
  Writes-then, Writes-behind, Writes-before, render_all-Writes,
}
use mathlib.Core.List.{append-nil}

pub column-Renders : (name : Bytes) (type : ValueType) (p : ℕ) → Renders (column name type) p
unfolding column
column-Renders name type p = Writes-plain (codes " " ++ name) p

-- A table whose columns number no parameter.
pub entity-Renders :
    (name schema : Bytes) (cs : List Component) (p : ℕ)
    → types_of cs ≡ []
    → Renders (entity name schema cs) p
unfolding entity
entity-Renders name schema cs p e =
    Writes-count _ 0 _ p (sym (ap length e)) (Writes-plain (schema ++ (codes "." ++ name)) p)

pub column_list-types :
    (cs : List (Bytes × ValueType)) → types_of (map (λ c. column c.0 c.1) cs) ≡ []
unfolding types_of column
column_list-types [] = refl
column_list-types ((name, type) ∷ cs) = column_list-types cs

-- A column of a table or projection that numbers no parameter.
pub column_of-Renders :
    (name : Bytes) (type : ValueType) (c : Component) (p : ℕ)
    → c.parameter_types ≡ []
    → Renders c p
    → Renders (column_of name type c) p
unfolding column_of
column_of-Renders name type c p e h =
    Writes-before (codes "." ++ name) c.render_to 0 p
      (Writes-count c.render_to (length c.parameter_types) 0 p (ap length e) h)

-- The columns of a table number no parameter.
pub bind_columns-types :
    (c : Component) (cs : List (Bytes × ValueType)) → types_of (bind_columns c cs) ≡ []
unfolding bind_columns column_of types_of
bind_columns-types c [] = refl
bind_columns-types c ((name, type) ∷ cs) = bind_columns-types c cs

pub bind_columns-RendersAll :
    (c : Component) (cs : List (Bytes × ValueType)) (p : ℕ)
    → c.parameter_types ≡ []
    → ((q : ℕ) → Renders c q)
    → RendersAll (bind_columns c cs) p
unfolding bind_columns
bind_columns-RendersAll c [] p e h = tt
bind_columns-RendersAll c ((name, type) ∷ cs) p e h =
    (column_of-Renders name type c p e (h p), bind_columns-RendersAll c cs _ e h)

pub projection-Renders : (cs : List Component) (p : ℕ) → RendersAll cs p → Renders (projection cs) p
unfolding projection
projection-Renders cs p h = render_all-Writes (codes ", ") cs p h

pub parameter-Renders :
    (c : Component) (type : ValueType) (p : ℕ) → c.value_type ≡ some type → Renders (parameter c) p
unfolding parameter written numbers count_from
parameter-Renders c type p e = rw e (record {
  pieces = numbered p ∷ [];
  written_eq = λ prev. rw (append-nil (codes "$" ++ explode p)) refl;
  numbers_eq = refl;
  bound_below = tt;
})

-- A parameter that is used once more, behind the place where it is numbered.
pub bound_parameter-Renders :
    (i : ℕ) (c : Component) (p : ℕ) → i < p → Renders (bound_parameter i c) p
unfolding bound_parameter written numbers count_from
bound_parameter-Renders i c p h = record {
  pieces = bound i ∷ [];
  written_eq = λ prev.
      let q : p + 0 ≡ p = omega arith in
      rw (lt→ltb i p h, q, append-nil (codes "$" ++ explode i)) refl;
  numbers_eq = refl;
  bound_below = (omega arith, tt);
}

pub constant-Renders : (v p : ℕ) → Renders (constant v) p
unfolding constant
constant-Renders v p = Writes-plain (explode v) p

-- Two operands and what stands between them.
pub binary_criteria-Renders :
    (token : Bytes) (c : Component) (bind : Component → Component) (p : ℕ)
    → Renders c p
    → Renders (bind c) (p + length c.parameter_types)
    → Renders (binary_criteria token c bind) p
unfolding binary_criteria
binary_criteria-Renders token c bind p h k =
    let n = length c.parameter_types in
    let m = length (bind c).parameter_types in
    Writes-count _ (n + m) _ p (sym (length-append c.parameter_types (bind c).parameter_types)) (
      Writes-then c.render_to (λ prev q. (bind c).render_to (prev ++ token) q) n m p h
        (Writes-behind token (bind c).render_to m (p + n) k))

pub unary_criteria-Renders :
    (begin end : Bytes) (c : Component) (p : ℕ)
    → Renders c p
    → Renders (unary_criteria begin end c) p
unfolding unary_criteria
unary_criteria-Renders begin end c p h =
    let n = length c.parameter_types in
    Writes-before end (λ prev q. c.render_to (prev ++ begin) q) n p
      (Writes-behind begin c.render_to n p h)

pub behind-Renders :
    (keyword : Bytes) (c : Component) (p : ℕ) → Renders c p → Renders (behind keyword c) p
unfolding behind
behind-Renders keyword c p h = Writes-behind keyword c.render_to (length c.parameter_types) p h

pub enclosed-Renders :
    (token : Bytes) (cs : List Component) (p : ℕ) → RendersAll cs p → Renders (enclosed token cs) p
unfolding enclosed
enclosed-Renders token cs p h =
    let n = length (types_of cs) in
    Writes-before (codes ")") (λ prev q. render_all token cs (prev ++ codes "(") q) n p
      (Writes-behind (codes "(") (render_all token cs) n p (render_all-Writes token cs p h))

pub listed-Renders :
    (keyword : Bytes) (cs : List Component) (p : ℕ)
    → RendersAll cs p
    → Renders (listed keyword cs) p
unfolding listed
listed-Renders keyword cs p h =
    Writes-behind keyword (render_all (codes ", ") cs) (length (types_of cs)) p
      (render_all-Writes (codes ", ") cs p h)

pub order_clause-Renders :
    (c : Component) (ascending : Bool) (p : ℕ) → Renders c p → Renders (order_clause c ascending) p
unfolding order_clause
order_clause-Renders c ascending p h =
    Writes-before (if ascending then codes " ASC" else codes " DESC") c.render_to
      (length c.parameter_types) p h

pub function-Renders :
    (type : Option ValueType) (name : Bytes) (cs : List Component) (p : ℕ)
    → RendersAll cs p
    → Renders (function type name cs) p
unfolding function
function-Renders type name cs p h =
    let n = length (types_of cs) in
    Writes-before (codes ")") (λ prev q. render_all (codes ", ") cs (prev ++ (name ++ codes "(")) q)
      n p
      (Writes-behind (name ++ codes "(") (render_all (codes ", ") cs) n p
        (render_all-Writes (codes ", ") cs p h))

pub alias-Renders :
    (token : Bytes) (c : Component) (p : ℕ) → Renders c p → Renders (alias token c) p
unfolding alias
alias-Renders token c p h =
    Writes-before (codes " AS " ++ token) c.render_to (length c.parameter_types) p h

pub over-Renders :
    (c partition : Component) (p : ℕ)
    → Renders c p
    → Renders partition (p + length c.parameter_types)
    → Renders (over c partition) p
unfolding over
over-Renders c partition p h k =
    let n = length c.parameter_types in
    let m = length partition.parameter_types in
    Writes-count _ (n + m) _ p (sym (length-append c.parameter_types partition.parameter_types)) (
      Writes-then c.render_to
        (λ prev q.
          partition.render_to (prev ++ codes " OVER (") q >>= λ r. some (r.0 ++ codes ")", r.1))
        n m p h
        (Writes-before (codes ")") (λ prev q. partition.render_to (prev ++ codes " OVER (") q) m
          (p + n) (Writes-behind (codes " OVER (") partition.render_to m (p + n) k)))

pub partition_by-Renders : (c : Component) (p : ℕ) → Renders c p → Renders (partition_by c) p
unfolding partition_by
partition_by-Renders c p h =
    Writes-behind (codes "PARTITION BY ") c.render_to (length c.parameter_types) p h

-- ===== src/Backend/Orm/Renders/Queries.antt =====
-- A statement whose components are well numbered numbers its parameters in the order of its types.
use tactmon.Prelude.{
  ℕ, ◌+◌, ◌≡◌, refl, sym, ap, Bool, some, List, [], ◌∷◌, ◌++◌, map, arith, Bytes, if◌then◌else◌,
  length, codes, is_empty, length-append,
}
use tactmon.Backend.Orm.{Component, ValueType, types_of, render_all, ◌>>=◌}
use tactmon.Backend.Orm.Shared.{column, column_of, entity}
use tactmon.Backend.Orm.Statements.{
  select, common_table, with_tables, Value, column_types, bound_values, insert, on_conflict,
  excluded, excluded_columns, update_from_excluded, returning, update, update_where, delete_from,
}
use tactmon.Backend.Orm.Renders.Components.{
  column-Renders, column_of-Renders, column_list-types, binary_criteria-Renders,
}
use tactmon.Backend.Orm.Renders.{
  Writes-plain, Writes, Renders, RendersAll, Writes-count, Writes-then, Writes-behind,
  Writes-before, render_all-Writes,
}

-- The components of a query, behind a space where there are any.
components-Writes :
    (cs : List Component) (p : ℕ)
    → RendersAll cs p
    → Writes
        (λ prev q.
          if is_empty cs
          then render_all (codes " ") cs prev q
          else render_all (codes " ") cs (prev ++ codes " ") q)
        (length (types_of cs))
        p
components-Writes [] p h = render_all-Writes (codes " ") [] p h
components-Writes (c ∷ cs) p h =
    Writes-behind (codes " ") (render_all (codes " ") (c ∷ cs)) (length (types_of (c ∷ cs))) p
      (render_all-Writes (codes " ") (c ∷ cs) p h)

-- A `SELECT` of a projection from a table with its components, each well numbered from where the
-- one before it ends, numbers its parameters from `p` on, one for each type of an argument.
pub select-Renders :
    (proj e : Component) (cs : List Component) (p : ℕ)
    → Renders proj p
    → Renders e (p + length proj.parameter_types)
    → RendersAll cs (p + length proj.parameter_types + length e.parameter_types)
    → Renders (select proj e cs) p
unfolding select
select-Renders proj e cs p h k l =
    let n = length proj.parameter_types in
    let m = length e.parameter_types in
    let o = length (types_of cs) in
    Writes-count _ (n + (m + o)) _ p
      (omega (
        arith,
        length-append proj.parameter_types (e.parameter_types ++ types_of cs),
        length-append e.parameter_types (types_of cs),
      ))
      (Writes-then (λ prev q. proj.render_to (prev ++ codes "SELECT ") q)
        (λ prev q. e.render_to (prev ++ codes " FROM ") q >>= λ r.
          if is_empty cs
          then render_all (codes " ") cs r.0 r.1
          else render_all (codes " ") cs (r.0 ++ codes " ") r.1)
        n (m + o) p (Writes-behind (codes "SELECT ") proj.render_to n p h)
        (Writes-then (λ prev q. e.render_to (prev ++ codes " FROM ") q)
          (λ prev q.
            if is_empty cs
            then render_all (codes " ") cs prev q
            else render_all (codes " ") cs (prev ++ codes " ") q)
          m o (p + n) (Writes-behind (codes " FROM ") e.render_to m (p + n) k)
          (components-Writes cs (p + n + m) l)))

pub common_table-Renders :
    (name : Bytes) (recursive : Bool) (query : Component) (p : ℕ)
    → Renders query p
    → Renders (common_table name recursive query) p
unfolding common_table
common_table-Renders name recursive query p h =
    let n = length query.parameter_types in
    let t = (if recursive then codes "RECURSIVE " else []) ++ (name ++ codes " AS (") in
    Writes-before (codes ")") (λ prev q. query.render_to (prev ++ t) q) n p
      (Writes-behind t query.render_to n p h)

-- The tables of a query are written, and numbered, in front of it.
pub with_tables-Renders :
    (query : Component) (tables : List Component) (p : ℕ)
    → RendersAll tables p
    → Renders query (p + length (types_of tables))
    → Renders (with_tables query tables) p
unfolding with_tables
with_tables-Renders query tables p h k =
    let n = length (types_of tables) in
    let m = length query.parameter_types in
    Writes-count _ (n + m) _ p (sym (length-append (types_of tables) query.parameter_types)) (
      Writes-then (λ prev q. render_all (codes ", ") tables (prev ++ codes "WITH ") q)
        (λ prev q. query.render_to (prev ++ codes " ") q) n m p
        (Writes-behind (codes "WITH ") (render_all (codes ", ") tables) n p
          (render_all-Writes (codes ", ") tables p h))
        (Writes-behind (codes " ") query.render_to m (p + n) k))

-- An `INSERT` numbers the values that are bound to its columns.
pub insert-Renders :
    (e : Component) (vs : List Value) (p : ℕ)
    → e.parameter_types ≡ []
    → types_of (column_types vs) ≡ []
    → Renders e p
    → RendersAll (column_types vs) p
    → RendersAll (bound_values vs) p
    → Renders (insert e vs) p
unfolding insert
insert-Renders e vs p ee ce h k l =
    let o = length (types_of (bound_values vs)) in
    let z : p + 0 ≡ p = omega arith in
    let table : Writes (λ prev q. e.render_to (prev ++ codes "INSERT INTO ") q) 0 p =
      Writes-behind (codes "INSERT INTO ") e.render_to 0 p
        (Writes-count e.render_to (length e.parameter_types) 0 p (ap length ee) h) in
    let columns : Writes
        (λ prev q. render_all (codes ", ") (column_types vs) (prev ++ codes " (") q) 0 (p + 0) =
      rw z (
        Writes-behind (codes " (") (render_all (codes ", ") (column_types vs)) 0 p (
          Writes-count _ (length (types_of (column_types vs))) 0 p (ap length ce)
            (render_all-Writes (codes ", ") (column_types vs) p k))) in
    let values : Writes
        (λ prev q. render_all (codes ", ") (bound_values vs) (prev ++ codes ") VALUES (") q >>= λ r.
          some (r.0 ++ codes ")", r.1))
        o (p + 0 + 0) =
      rw (z, z)
        (Writes-before (codes ")")
          (λ prev q. render_all (codes ", ") (bound_values vs) (prev ++ codes ") VALUES (") q) o p
          (Writes-behind (codes ") VALUES (") (render_all (codes ", ") (bound_values vs)) o p
            (render_all-Writes (codes ", ") (bound_values vs) p l))) in
    Writes-count _ (0 + (0 + o)) _ p
      (omega (arith, length-append e.parameter_types (types_of (bound_values vs)), ap length ee))
      (Writes-then (λ prev q. e.render_to (prev ++ codes "INSERT INTO ") q)
        (λ prev q. render_all (codes ", ") (column_types vs) (prev ++ codes " (") q >>= λ r.
          render_all (codes ", ") (bound_values vs) (r.0 ++ codes ") VALUES (") r.1 >>= λ s.
          some (s.0 ++ codes ")", s.1))
        0 (0 + o) p table
        (Writes-then (λ prev q. render_all (codes ", ") (column_types vs) (prev ++ codes " (") q)
          (λ prev q.
            render_all (codes ", ") (bound_values vs) (prev ++ codes ") VALUES (") q >>= λ r.
            some (r.0 ++ codes ")", r.1))
          0 o (p + 0) columns values))

-- A statement, and a component behind a keyword: `RETURNING`, `WHERE`.
pub returning-Renders :
    (base c : Component) (p : ℕ)
    → Renders base p
    → Renders c (p + length base.parameter_types)
    → Renders (returning base c) p
unfolding returning
returning-Renders base c p h k =
    let n = length base.parameter_types in
    let m = length c.parameter_types in
    Writes-count _ (n + m) _ p (sym (length-append base.parameter_types c.parameter_types)) (
      Writes-then base.render_to (λ prev q. c.render_to (prev ++ codes " RETURNING ") q) n m p h
        (Writes-behind (codes " RETURNING ") c.render_to m (p + n) k))

pub update_where-Renders :
    (base c : Component) (p : ℕ)
    → Renders base p
    → Renders c (p + length base.parameter_types)
    → Renders (update_where base c) p
unfolding update_where
update_where-Renders base c p h k =
    let n = length base.parameter_types in
    let m = length c.parameter_types in
    Writes-count _ (n + m) _ p (sym (length-append base.parameter_types c.parameter_types)) (
      Writes-then base.render_to (λ prev q. c.render_to (prev ++ codes " WHERE ") q) n m p h
        (Writes-behind (codes " WHERE ") c.render_to m (p + n) k))

pub update-Renders :
    (e set : Component) (p : ℕ)
    → Renders e p
    → Renders set (p + length e.parameter_types)
    → Renders (update e set) p
unfolding update
update-Renders e set p h k =
    let n = length e.parameter_types in
    let m = length set.parameter_types in
    Writes-count _ (n + m) _ p (sym (length-append e.parameter_types set.parameter_types)) (
      Writes-then (λ prev q. e.render_to (prev ++ codes "UPDATE ") q)
        (λ prev q. set.render_to (prev ++ codes " ") q) n m p
        (Writes-behind (codes "UPDATE ") e.render_to n p h)
        (Writes-behind (codes " ") set.render_to m (p + n) k))

-- A `DELETE` numbers what its criteria hold.
pub delete_from-Renders :
    (e criteria : Component) (p : ℕ)
    → e.parameter_types ≡ []
    → Renders e p
    → Renders criteria p
    → Renders (delete_from e criteria) p
unfolding delete_from
delete_from-Renders e criteria p ee h k =
    let m = length criteria.parameter_types in
    let z : p + 0 ≡ p = omega arith in
    Writes-count _ (0 + m) _ p (omega arith) (
      Writes-then (λ prev q. e.render_to (prev ++ codes "DELETE FROM") q)
        (λ prev q. criteria.render_to (prev ++ codes " ") q) 0 m p
        (Writes-behind (codes "DELETE FROM") e.render_to 0 p
          (Writes-count e.render_to (length e.parameter_types) 0 p (ap length ee) h))
        (rw z (Writes-behind (codes " ") criteria.render_to m p k)))

-- An `INSERT` with a clause for conflicts; what is in conflict numbers no parameter.
pub on_conflict-Renders :
    (base conflicting c : Component) (p : ℕ)
    → conflicting.parameter_types ≡ []
    → Renders base p
    → Renders conflicting (p + length base.parameter_types)
    → Renders c (p + length base.parameter_types)
    → Renders (on_conflict base conflicting c) p
unfolding on_conflict
on_conflict-Renders base conflicting c p ce h k l =
    let n = length base.parameter_types in
    let m = length c.parameter_types in
    let z : p + n + 0 ≡ p + n = omega arith in
    let what : Writes (λ prev q. conflicting.render_to (prev ++ codes " ON CONFLICT (") q) 0
        (p + n) =
      Writes-behind (codes " ON CONFLICT (") conflicting.render_to 0 (p + n) (
        Writes-count conflicting.render_to (length conflicting.parameter_types) 0 (p + n)
          (ap length ce) k) in
    Writes-count _ (n + (0 + m)) _ p
      (omega (arith, length-append base.parameter_types c.parameter_types))
      (Writes-then base.render_to
        (λ prev q. conflicting.render_to (prev ++ codes " ON CONFLICT (") q >>= λ r.
          c.render_to (r.0 ++ codes ") DO ") r.1)
        n (0 + m) p h
        (Writes-then (λ prev q. conflicting.render_to (prev ++ codes " ON CONFLICT (") q)
          (λ prev q. c.render_to (prev ++ codes ") DO ") q) 0 m (p + n) what
          (rw z (Writes-behind (codes ") DO ") c.render_to m (p + n) l))))

excluded-Renders : (p : ℕ) → Renders excluded p
unfolding excluded tactmon.Backend.Orm.Selectors.raw_literal
excluded-Renders p = Writes-plain (codes "EXCLUDED") p

excluded_columns-RendersAll :
    (cs : List (Bytes × ValueType)) (p : ℕ) → RendersAll (excluded_columns cs) p
unfolding excluded_columns tactmon.Backend.Orm.Shared.equals
excluded_columns-RendersAll [] p = tt
excluded_columns-RendersAll ((name, type) ∷ cs) p = (
  binary_criteria-Renders (codes " = ") (column name type) (λ c. column_of name type excluded) p
      (column-Renders name type p)
      (column_of-Renders name type excluded _ (unfold excluded in refl) (excluded-Renders _)),
  excluded_columns-RendersAll cs _,
)

excluded_columns-types : (cs : List (Bytes × ValueType)) → types_of (excluded_columns cs) ≡ []
unfolding excluded_columns types_of tactmon.Backend.Orm.Shared.equals
    tactmon.Backend.Orm.Shared.binary_criteria column column_of
excluded_columns-types [] = refl
excluded_columns-types ((name, type) ∷ cs) = excluded_columns-types cs

-- An update from the excluded row numbers no parameter.
pub update_from_excluded-Renders :
    (e : Component) (cs : List (Bytes × ValueType)) (p : ℕ)
    → e.parameter_types ≡ []
    → Renders (update_from_excluded e cs) p
unfolding update_from_excluded
update_from_excluded-Renders e cs p ee =
    Writes-count _ (length (types_of (excluded_columns cs))) _ p
      (omega (
        arith,
        ap length (excluded_columns-types cs),
        length-append e.parameter_types (types_of (map (λ c. column c.0 c.1) cs)),
        ap length ee,
        ap length (column_list-types cs),
      ))
      (Writes-behind (codes "UPDATE SET ") (render_all (codes ", ") (excluded_columns cs)) _ p
        (render_all-Writes (codes ", ") (excluded_columns cs) p (excluded_columns-RendersAll cs p)))

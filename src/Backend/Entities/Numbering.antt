-- ===== src/Backend/Entities/Numbering.antt =====
-- The statements of the application number their parameters from 1 in the order of the arguments.
use tactmon.Prelude.{ℕ, ◌≡◌, refl, List, [], ◌∷◌, map, Bytes, codes}
use tactmon.Backend.Orm.{Component, ValueType, types_of}
use tactmon.Backend.Orm.Shared.{
  column, entity, bind_columns, projection, where_clause, conjunction, equals, parameter,
}
use tactmon.Backend.Orm.Statements.{Value, column_types, bound_values, select, insert}
use tactmon.Backend.Orm.Renders.{Renders, RendersAll}
use tactmon.Backend.Orm.Renders.Components.{
  column-Renders, column_list-types, entity-Renders, bind_columns-RendersAll, projection-Renders,
  parameter-Renders, binary_criteria-Renders, behind-Renders, enclosed-Renders,
}
use tactmon.Backend.Orm.Renders.Queries.{select-Renders, insert-Renders}

-- A test of a column against a parameter.
pub test-Renders :
    (name : Bytes) (type : ValueType) (p : ℕ) → Renders (equals (column name type) parameter) p
unfolding equals
test-Renders name type p =
    binary_criteria-Renders (codes " = ") (column name type) parameter p
      (column-Renders name type p)
      (parameter-Renders (column name type) type _ (unfold column in refl))

pub where_test-Renders :
    (name : Bytes) (type : ValueType) (p : ℕ)
    → Renders (where_clause (equals (column name type) parameter)) p
unfolding where_clause
where_test-Renders name type p =
    behind-Renders (codes "WHERE ") (equals (column name type) parameter) p
      (test-Renders name type p)

pub where_tests-Renders :
    (name other : Bytes) (type kind : ValueType) (p : ℕ)
    → Renders
        (where_clause (
          conjunction
            (equals (column name type) parameter ∷ equals (column other kind) parameter ∷ [])))
        p
unfolding where_clause conjunction
where_tests-Renders name other type kind p =
    let tests = equals (column name type) parameter ∷ equals (column other kind) parameter ∷ [] in
    behind-Renders (codes "WHERE ") (conjunction tests) p (
      enclosed-Renders (codes " AND ") tests p
        (test-Renders name type p, (test-Renders other kind _, tt)))

-- A table with its columns, given by names and types.
abbrev pub table_of : Bytes → List (Bytes × ValueType) → Component
table_of name cs = entity name (codes "public") (map (λ c. column c.0 c.1) cs)

module _ (name : Bytes) (cs : List (Bytes × ValueType)) where
  pub table-types : (table_of name cs).parameter_types ≡ []
  unfolding entity
  table-types = column_list-types cs

  pub table-Renders : (p : ℕ) → Renders (table_of name cs) p
  unfolding entity
  table-Renders p =
      entity-Renders name (codes "public") (map (λ c. column c.0 c.1) cs) p table-types

  pub row-Renders : (p : ℕ) → Renders (projection (bind_columns (table_of name cs) cs)) p
  row-Renders p =
      projection-Renders _ p
        (bind_columns-RendersAll (table_of name cs) cs p table-types table-Renders)

-- The columns of an insert, each with a parameter.
abbrev pub values_of : List (Bytes × ValueType) → List Value
values_of = map (λ c. record { column_type = column c.0 c.1; bind = parameter })

values-types : (cs : List (Bytes × ValueType)) → types_of (column_types (values_of cs)) ≡ []
unfolding column_types types_of column
values-types [] = refl
values-types ((name, type) ∷ cs) = values-types cs

columns-RendersAll :
    (cs : List (Bytes × ValueType)) (p : ℕ) → RendersAll (column_types (values_of cs)) p
unfolding column_types
columns-RendersAll [] p = tt
columns-RendersAll ((name, type) ∷ cs) p = (column-Renders name type p, columns-RendersAll cs _)

values-RendersAll :
    (cs : List (Bytes × ValueType)) (p : ℕ) → RendersAll (bound_values (values_of cs)) p
unfolding bound_values
values-RendersAll [] p = tt
values-RendersAll ((name, type) ∷ cs) p =
    (parameter-Renders (column name type) type p (unfold column in refl), values-RendersAll cs _)

-- An insert of values for some columns.
pub insert_values-Renders :
    (name : Bytes) (cs vs : List (Bytes × ValueType)) (p : ℕ)
    → Renders (insert (table_of name cs) (values_of vs)) p
insert_values-Renders name cs vs p =
    insert-Renders (table_of name cs) (values_of vs) p (table-types name cs) (values-types vs)
      (table-Renders name cs p) (columns-RendersAll vs p) (values-RendersAll vs p)

-- The types of the arguments that the repositories give to a statement.
abbrev pub IsNumbered : Component × List ValueType → Type 0
IsNumbered (statement, types) = (statement.parameter_types ≡ types) × Renders statement 1

-- A select of the rows of a table, all or those that pass a test.
module _ (name : Bytes) (cs : List (Bytes × ValueType)) where
  pub select_rows-Renders :
      Renders (select (projection (bind_columns (table_of name cs) cs)) (table_of name cs) []) 1
  select_rows-Renders =
      select-Renders _ (table_of name cs) [] 1 (row-Renders name cs 1) (table-Renders name cs _) tt

  pub select_where-Renders :
      (column_name : Bytes) (type : ValueType)
      → Renders
          (select
            (projection (bind_columns (table_of name cs) cs))
            (table_of name cs)
            (where_clause (equals (column column_name type) parameter) ∷ []))
          1
  select_where-Renders column_name type =
      select-Renders _ (table_of name cs) _ 1 (row-Renders name cs 1) (table-Renders name cs _)
        (where_test-Renders column_name type _, tt)

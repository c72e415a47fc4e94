-- ===== src/Backend/Orm/Statements.antt =====
-- src/tactmon/backend/db/orm/select, insert, update, delete: the statements.
use tactmon.Prelude.{
  Bool, Option, none, some, List, [], ◌∷◌, ◌++◌, map, Bytes, if◌then◌else◌, codes, is_empty,
}
use tactmon.Backend.Orm.{Component, ValueType, types_of, render_all, ◌>>=◌}
use tactmon.Backend.Orm.Shared.{column, column_of, equals, listed}
use tactmon.Backend.Orm.Selectors.{raw_literal}

-- `select::detail::QueryImpl<R, P, E, CS...>`.
unfoldable pub select : Component → Component → List Component → Component
select proj e components = record {
  value_type = none;
  parameter_types = proj.parameter_types ++ (e.parameter_types ++ types_of components);
  render_to = λ prev p. do
    (next, u) ← proj.render_to (prev ++ codes "SELECT ") p
    (next2, u2) ← e.render_to (next ++ codes " FROM ") u
    if is_empty components
        then render_all (codes " ") components next2 u2
        else render_all (codes " ") components (next2 ++ codes " ") u2;
}

-- `select::CTE<ALIAS, RECURSIVE, QUERY>`.
unfoldable pub common_table : Bytes → Bool → Component → Component
common_table name recursive query = record {
  value_type = none;
  parameter_types = query.parameter_types;
  render_to = λ prev p. do
    (next, u) ←
        query.render_to
          (prev ++ ((if recursive then codes "RECURSIVE " else []) ++ (name ++ codes " AS ("))) p
    some (next ++ codes ")", u);
}

-- `select::detail::WithImpl<QUERYBASE, ES...>`.
unfoldable pub with_tables : Component → List Component → Component
with_tables query tables = record {
  value_type = none;
  parameter_types = types_of tables ++ query.parameter_types;
  render_to = λ prev p. do
    (next, u) ← render_all (codes ", ") tables (prev ++ codes "WITH ") p
    query.render_to (next ++ codes " ") u;
}

-- `insert::OnConstraint<NAME>`, `insert::Excluded` and `insert::DoNothing`.
unfoldable pub on_constraint : Bytes → Component
on_constraint name = record {
  value_type = none;
  parameter_types = [];
  render_to = λ prev p. some (prev ++ (codes "ON CONSTRAINT " ++ name), p);
}

unfoldable pub excluded : Component
unfolding raw_literal
excluded = raw_literal (codes "EXCLUDED")

unfoldable pub do_nothing : Component
do_nothing = record {
  value_type = none;
  parameter_types = [];
  render_to = λ prev p. some (prev ++ codes "NOTHING", p);
}

-- `insert::Value<COLUMN, VALUE>`: a column, and what is bound to it.
pub record Value : Type 0 where
  pub column_type : Component
  pub bind : Component → Component

unfoldable pub column_types : List Value → List Component
column_types [] = []
column_types (v ∷ vs) = v.column_type ∷ column_types vs

unfoldable pub bound_values : List Value → List Component
bound_values [] = []
bound_values (v ∷ vs) = v.bind v.column_type ∷ bound_values vs

-- `insert::detail::QueryImpl<ENTITY, COLUMNS...>`.
unfoldable pub insert : Component → List Value → Component
unfolding column_types bound_values
insert e values = record {
  value_type = none;
  parameter_types = e.parameter_types ++ types_of (bound_values values);
  render_to = λ prev p. do
    (next, u) ← e.render_to (prev ++ codes "INSERT INTO ") p
    (next2, u2) ← render_all (codes ", ") (column_types values) (next ++ codes " (") u
    (next3, u3) ← render_all (codes ", ") (bound_values values) (next2 ++ codes ") VALUES (") u2
    some (next3 ++ codes ")", u3);
}

-- `insert::detail::OnConflictImpl<QUERYBASE, CONFLICTING, COMPONENT>`.
unfoldable pub on_conflict : Component → Component → Component → Component
on_conflict base conflicting component = record {
  value_type = none;
  parameter_types = base.parameter_types ++ component.parameter_types;
  render_to = λ prev p. do
    (next, u) ← base.render_to prev p
    (next2, u2) ← conflicting.render_to (next ++ codes " ON CONFLICT (") u
    component.render_to (next2 ++ codes ") DO ") u2;
}

-- `insert::detail::ReturningImpl<QUERYBASE, COMPONENT>`.
unfoldable pub returning : Component → Component → Component
returning base component = record {
  value_type = none;
  parameter_types = base.parameter_types ++ component.parameter_types;
  render_to = λ prev p. do
    (next, u) ← base.render_to prev p
    component.render_to (next ++ codes " RETURNING ") u;
}

-- `insert::UpdateFromExcluded<ENTITY, COMPONENTS...>`: columns, by name and type. The second
-- operand is bound to `EXCLUDED` already, and stays so.
unfoldable pub excluded_columns : List (Bytes × ValueType) → List Component
unfolding equals column column_of excluded
excluded_columns [] = []
excluded_columns ((name, type) ∷ cs) =
    equals (column name type) (λ c. column_of name type excluded) ∷ excluded_columns cs

unfoldable pub update_from_excluded : Component → List (Bytes × ValueType) → Component
unfolding excluded_columns
update_from_excluded e columns = record {
  value_type = none;
  parameter_types = e.parameter_types ++ types_of (map (λ c. column c.0 c.1) columns);
  render_to =
      λ prev p. render_all (codes ", ") (excluded_columns columns) (prev ++ codes "UPDATE SET ") p;
}

-- `update::Set<ASSIGNMENTS...>`.
unfoldable pub set_clause : List Component → Component
unfolding listed
set_clause assignments = listed (codes " SET ") assignments

-- `update::detail::QueryImpl<ENTITY, SET>`, and its `WhereImpl<QUERYBASE, CRITERIA>`.
unfoldable pub update : Component → Component → Component
update e set = record {
  value_type = none;
  parameter_types = e.parameter_types ++ set.parameter_types;
  render_to = λ prev p. do
    (next, u) ← e.render_to (prev ++ codes "UPDATE ") p
    set.render_to (next ++ codes " ") u;
}

unfoldable pub update_where : Component → Component → Component
update_where base criteria = record {
  value_type = none;
  parameter_types = base.parameter_types ++ criteria.parameter_types;
  render_to = λ prev p. do
    (next, u) ← base.render_to prev p
    criteria.render_to (next ++ codes " WHERE ") u;
}

-- `del::detail::QueryImpl<ENTITY, CRITERIA>`.
unfoldable pub delete_from : Component → Component → Component
delete_from e criteria = record {
  value_type = none;
  parameter_types = criteria.parameter_types;
  render_to = λ prev p. do
    (next, u) ← e.render_to (prev ++ codes "DELETE FROM") p
    criteria.render_to (next ++ codes " ") u;
}

-- `IQuery::AsString`: the parameters of a statement are numbered from 1.
unfoldable pub as_string : Component → Option Bytes
as_string query = do (rendered, next) ← query.render_to [] 1; some rendered

-- ===== src/Backend/Orm/Shared.antt =====
-- src/tactmon/backend/db/orm: Column.hpp, Entity.hpp, Projection.hpp, Predicates.hpp, Shared.hpp.
use tactmon.Prelude.{
  ℕ, ◌+◌, Bool, none, some, List, [], ◌∷◌, ◌++◌, Bytes, ltb, if◌then◌else◌, codes,
}
use tactmon.Backend.Orm.{Component, ValueType, types_of, render_all, ◌>>=◌}
use tactmon.Backend.Orm.Digits.{explode}

-- `Column<NAME, TYPE>`.
unfoldable pub column : Bytes → ValueType → Component
column name type = record {
  value_type = some type;
  parameter_types = [];
  render_to = λ prev p. some (prev ++ (codes " " ++ name), p);
}

-- `Column<NAME, TYPE>::Of<PROJECTION>`.
unfoldable pub column_of : Bytes → ValueType → Component → Component
column_of name type projection = record {
  value_type = some type;
  parameter_types = [];
  render_to = λ prev p. do
    (next, u) ← projection.render_to prev p
    some (next ++ (codes "." ++ name), u);
}

-- `Projection<COLUMNS...>`.
unfoldable pub projection : List Component → Component
projection columns = record {
  value_type = none;
  parameter_types = types_of columns;
  render_to = render_all (codes ", ") columns;
}

-- `Entity<NAME, SCHEMA, COMPONENTS...>`; the columns show in `parameter_types`.
unfoldable pub entity : Bytes → Bytes → List Component → Component
entity name schema columns = record {
  value_type = none;
  parameter_types = types_of columns;
  render_to = λ prev p. some (prev ++ (schema ++ (codes "." ++ name)), p);
}

-- `Entity::projection_type`: each column bound to the entity.
unfoldable pub bind_columns : Component → List (Bytes × ValueType) → List Component
unfolding column_of
bind_columns e [] = []
bind_columns e ((name, type) ∷ cs) = column_of name type e ∷ bind_columns e cs

-- `BinaryCriteria<TOKEN, COMPONENT, PARAMETER>`; `bind` is `PARAMETER::BindToProjection`.
unfoldable pub binary_criteria : Bytes → Component → (Component → Component) → Component
binary_criteria token component bind =
    let bound = bind component in
    record {
      value_type = none;
      parameter_types = component.parameter_types ++ bound.parameter_types;
      render_to = λ prev p. do
        (next, u) ← component.render_to prev p
        bound.render_to (next ++ token) u;
    }

-- `Equals`, `GreaterThan`, `LessThan`.
unfoldable pub equals : Component → (Component → Component) → Component
unfolding binary_criteria
equals = binary_criteria (codes " = ")

unfoldable pub greater_than : Component → (Component → Component) → Component
unfolding binary_criteria
greater_than = binary_criteria (codes " > ")

unfoldable pub less_than : Component → (Component → Component) → Component
unfolding binary_criteria
less_than = binary_criteria (codes " < ")

-- `UnaryCriteria<BEGIN, END, CRITERIA>`.
unfoldable pub unary_criteria : Bytes → Bytes → Component → Component
unary_criteria begin end criteria = record {
  value_type = none;
  parameter_types = criteria.parameter_types;
  render_to = λ prev p. do
    (next, u) ← criteria.render_to (prev ++ begin) p
    some (next ++ end, u);
}

-- `Not` and `IsNull`.
unfoldable pub negated : Component → Component
unfolding unary_criteria
negated = unary_criteria (codes "!(") (codes ")")

unfoldable pub is_null : Component → Component
unfolding unary_criteria
is_null = unary_criteria (codes "(") (codes " IS NULL)")

-- A component that is written behind a keyword: `Where`, `Offset`, `Limit`.
unfoldable pub behind : Bytes → Component → Component
behind keyword component = record {
  value_type = none;
  parameter_types = component.parameter_types;
  render_to = λ prev p. component.render_to (prev ++ keyword) p;
}

unfoldable pub where_clause : Component → Component
unfolding behind
where_clause = behind (codes "WHERE ")

unfoldable pub offset : Component → Component
unfolding behind
offset = behind (codes "OFFSET ")

unfoldable pub limit : Component → Component
unfolding behind
limit = behind (codes "LIMIT ")

-- Components in parentheses: `Conjunction` and `Disjunction`.
unfoldable pub enclosed : Bytes → List Component → Component
enclosed token components = record {
  value_type = none;
  parameter_types = types_of components;
  render_to = λ prev p. do
    (next, u) ← render_all token components (prev ++ codes "(") p
    some (next ++ codes ")", u);
}

unfoldable pub conjunction : List Component → Component
unfolding enclosed
conjunction = enclosed (codes " AND ")

unfoldable pub disjunction : List Component → Component
unfolding enclosed
disjunction = enclosed (codes " OR ")

-- `Parameter::BindToProjection<COMPONENT>`: an argument of the type of the component.
unfoldable pub parameter : Component → Component
parameter component = record {
  value_type = none;
  parameter_types = elim component.value_type [ none ↦ [] | some type ↦ type ∷ [] ];
  render_to = λ prev p. some (prev ++ (codes "$" ++ explode p), p + 1);
}

-- `BoundParameter<I>::BindToProjection<COMPONENT>`, with its `static_assert`.
unfoldable pub bound_parameter : ℕ → Component → Component
bound_parameter i component = record {
  value_type = none;
  parameter_types = [];
  render_to = λ prev p. if ltb i p then some (prev ++ (codes "$" ++ explode i), p) else none;
}

-- `Constant<V>`.
unfoldable pub constant : ℕ → Component
constant v = record {
  value_type = none;
  parameter_types = [];
  render_to = λ prev p. some (prev ++ explode v, p);
}

-- `OrderClause<COMPONENT, ASCENDING>`.
unfoldable pub order_clause : Component → Bool → Component
order_clause component ascending = record {
  value_type = none;
  parameter_types = component.parameter_types;
  render_to = λ prev p. do
    (next, u) ← component.render_to prev p
    some (next ++ (if ascending then codes " ASC" else codes " DESC"), u);
}

-- A keyword and components behind it: `OrderBy` and `GroupBy`.
unfoldable pub listed : Bytes → List Component → Component
listed keyword components = record {
  value_type = none;
  parameter_types = types_of components;
  render_to = λ prev p. render_all (codes ", ") components (prev ++ keyword) p;
}

unfoldable pub order_by : List Component → Component
unfolding listed
order_by = listed (codes "ORDER BY ")

unfoldable pub group_by : List Component → Component
unfolding listed
group_by = listed (codes "GROUP BY ")

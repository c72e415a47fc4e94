-- ===== src/Backend/Orm/Selectors.antt =====
-- src/tactmon/backend/db/orm/Selectors.hpp: functions, aliases and windows.
use tactmon.Prelude.{ℕ, Option, none, some, List, [], ◌∷◌, ◌++◌, Bytes, codes}
use tactmon.Backend.Orm.{Component, ValueType, word64, types_of, render_all, ◌>>=◌}
use tactmon.Backend.Orm.Digits.{explode}

-- `Function<TYPE, NAME, COMPONENTS...>`.
unfoldable pub function : Option ValueType → Bytes → List Component → Component
function type name components = record {
  value_type = type;
  parameter_types = types_of components;
  render_to = λ prev p. do
    (next, u) ← render_all (codes ", ") components (prev ++ (name ++ codes "(")) p
    some (next ++ codes ")", u);
}

unfoldable pub count : Component → Component
unfolding function
count c = function (some word64) (codes "COUNT") (c ∷ [])

-- `Max`, `Min`, `Any` and `Sum` have the type of their argument.
unfoldable pub aggregate : Bytes → Component → Component
unfolding function
aggregate name c = function c.value_type name (c ∷ [])

-- `Selector<TOKEN, COMPONENT>`, and `Distinct`.
unfoldable pub selector : Bytes → Component → Component
selector token component = record {
  value_type = component.value_type;
  parameter_types = component.parameter_types;
  render_to = λ prev p. component.render_to (prev ++ (token ++ codes " ")) p;
}

unfoldable pub distinct : Component → Component
unfolding selector
distinct = selector (codes "DISTINCT")

-- `Distinct<COMPONENT>::On<CRITERIA>`, which declares no `parameter_types`: none are given here.
unfoldable pub distinct_on : Component → Component → Component
distinct_on component criteria = record {
  value_type = component.value_type;
  parameter_types = [];
  render_to = λ prev p. do
    (next, u) ← criteria.render_to (prev ++ codes "DISTINCT ON (") p
    component.render_to (next ++ codes ") ") u;
}

-- `Alias<TOKEN, COMPONENT>`, and `Alias::Reference`.
unfoldable pub alias : Bytes → Component → Component
alias token component = record {
  value_type = component.value_type;
  parameter_types = component.parameter_types;
  render_to = λ prev p. do
    (next, u) ← component.render_to prev p
    some (next ++ (codes " AS " ++ token), u);
}

unfoldable pub reference : Bytes → Component
reference token = record {
  value_type = none;
  parameter_types = [];
  render_to = λ prev p. some (prev ++ token, p);
}

-- `RawLiteral<KEYWORD>` and `Raw<V>`.
unfoldable pub raw_literal : Bytes → Component
raw_literal keyword = record {
  value_type = none;
  parameter_types = [];
  render_to = λ prev p. some (prev ++ keyword, p);
}

unfoldable pub raw : ℕ → Component
raw v = record {
  value_type = none;
  parameter_types = [];
  render_to = λ prev p. some (prev ++ explode v, p);
}

-- `Over<COMPONENT, PARTITION>` and `PartitionBy<COMPONENT>`.
unfoldable pub over : Component → Component → Component
over component partition = record {
  value_type = component.value_type;
  parameter_types = component.parameter_types ++ partition.parameter_types;
  render_to = λ prev p. do
    (next, u) ← component.render_to prev p
    (next2, u2) ← partition.render_to (next ++ codes " OVER (") u
    some (next2 ++ codes ")", u2);
}

unfoldable pub partition_by : Component → Component
partition_by component = record {
  value_type = none;
  parameter_types = component.parameter_types;
  render_to = λ prev p. component.render_to (prev ++ codes "PARTITION BY ") p;
}

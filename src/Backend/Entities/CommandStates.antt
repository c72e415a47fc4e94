-- ===== src/Backend/Entities/CommandStates.antt =====
-- src/tactmon/backend/db/entity/CommandState.hpp.
use tactmon.Prelude.{List, [], ◌∷◌, map, Bytes, codes}
use tactmon.Backend.Orm.{Component, ValueType, text, word32, word64}
use tactmon.Backend.Orm.Shared.{
  column, entity, bind_columns, projection, where_clause, equals, parameter,
}
use tactmon.Backend.Orm.Statements.{Value, select, insert, on_conflict, update_from_excluded}

abbrev pub columns : List (Bytes × ValueType)
columns =
    (codes "id", word32)
    ∷ (codes "name", text)
    ∷ (codes "hash", word64)
    ∷ (codes "version", word32)
    ∷ []

-- `command_state::Entity`.
abbrev pub table : Component
table = entity (codes "command_states") (codes "public") (map (λ c. column c.0 c.1) columns)

abbrev pub select_all : Component
select_all = select (projection (bind_columns table columns)) table []

abbrev pub select_by_name : Component
select_by_name =
    select (projection (bind_columns table columns)) table
      (where_clause (equals (column (codes "name") text) parameter) ∷ [])

abbrev pub updated : List (Bytes × ValueType)
updated = (codes "name", text) ∷ (codes "hash", word64) ∷ (codes "version", word32) ∷ []

abbrev pub inserted : List Value
inserted =
    record { column_type = column (codes "name") text; bind = parameter }
    ∷ record { column_type = column (codes "hash") word64; bind = parameter }
    ∷ record { column_type = column (codes "version") word32; bind = parameter }
    ∷ []

-- The conflict is one of the column `id`, for which no value is inserted.
abbrev pub insert_or_update : Component
insert_or_update =
    on_conflict (insert table inserted) (column (codes "id") word32)
      (update_from_excluded table updated)

-- ===== src/Backend/Entities/Products.antt =====
-- src/tactmon/backend/db/entity/Product.hpp.
use tactmon.Prelude.{List, [], ◌∷◌, map, Bytes, codes}
use tactmon.Backend.Orm.{Component, ValueType, text, word32, word64}
use tactmon.Backend.Orm.Shared.{
  column, entity, bind_columns, projection, where_clause, equals, parameter,
}
use tactmon.Backend.Orm.Statements.{select, insert, update, update_where, set_clause}

abbrev pub columns : List (Bytes × ValueType)
columns = (codes "id", word32) ∷ (codes "name", text) ∷ (codes "sequence_id", word64) ∷ []

abbrev pub name : Component
name = column (codes "name") text

abbrev pub sequence_id : Component
sequence_id = column (codes "sequence_id") word64

-- `product::Entity`.
abbrev pub table : Component
table = entity (codes "products") (codes "public") (map (λ c. column c.0 c.1) columns)

abbrev pub select_all : Component
select_all = select (projection (bind_columns table columns)) table []

abbrev pub select_by_name : Component
select_by_name =
    select (projection (bind_columns table columns)) table
      (where_clause (equals name parameter) ∷ [])

abbrev pub select_by_id : Component
select_by_id =
    select (projection (bind_columns table columns)) table
      (where_clause (equals (column (codes "id") word32) parameter) ∷ [])

abbrev pub insert_product : Component
insert_product = insert table (
    record { column_type = name; bind = parameter }
    ∷ record { column_type = sequence_id; bind = parameter }
    ∷ [])

abbrev pub update_product : Component
update_product =
    update_where (update table (set_clause (equals sequence_id parameter ∷ [])))
      (equals name parameter)

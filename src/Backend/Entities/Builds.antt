-- ===== src/Backend/Entities/Builds.antt =====
-- src/tactmon/backend/db/entity/Build.hpp.
use tactmon.Prelude.{false, List, [], ◌∷◌, map, Bytes, codes}
use tactmon.Backend.Orm.{Component, ValueType, text, word32, word64}
use tactmon.Backend.Orm.Shared.{
  column, entity, bind_columns, projection, where_clause, conjunction, equals, parameter, order_by,
  order_clause, limit, offset, constant,
}
use tactmon.Backend.Orm.Selectors.{alias, over, count, partition_by}
use tactmon.Backend.Orm.Statements.{Value, select, insert, returning}

abbrev pub columns : List (Bytes × ValueType)
columns =
    (codes "id", word32)
    ∷ (codes "product_name", text)
    ∷ (codes "build_name", text)
    ∷ (codes "build_config", text)
    ∷ (codes "cdn_config", text)
    ∷ (codes "detected_at", word64)
    ∷ (codes "region", text)
    ∷ []

abbrev pub id : Component
id = column (codes "id") word32

abbrev pub product_name : Component
product_name = column (codes "product_name") text

abbrev pub build_name : Component
build_name = column (codes "build_name") text

abbrev pub build_config : Component
build_config = column (codes "build_config") text

abbrev pub cdn_config : Component
cdn_config = column (codes "cdn_config") text

abbrev pub detected_at : Component
detected_at = column (codes "detected_at") word64

abbrev pub region : Component
region = column (codes "region") text

-- `build::Entity`.
abbrev pub table : Component
table = entity (codes "builds") (codes "public") (map (λ c. column c.0 c.1) columns)

-- `dto::BuildName` and `dto::BuildStatistics`.
abbrev pub named_build : Component
named_build = projection (id ∷ build_name ∷ [])

abbrev pub build_statistics : Component
build_statistics = projection (
    alias (codes "id_count") (over (count id) (partition_by product_name))
    ∷ build_name
    ∷ detected_at
    ∷ build_config
    ∷ cdn_config
    ∷ [])

abbrev pub select_all : Component
select_all = select (projection (bind_columns table columns)) table []

abbrev pub select_by_name : Component
select_by_name =
    select (projection (bind_columns table columns)) table
      (where_clause (conjunction (equals build_name parameter ∷ equals region parameter ∷ [])) ∷ [])

abbrev pub select_by_id : Component
select_by_id =
    select (projection (bind_columns table columns)) table (where_clause (equals id parameter) ∷ [])

abbrev pub select_by_product : Component
select_by_product = select named_build table (where_clause (equals product_name parameter) ∷ [])

abbrev pub select_statistics : Component
select_statistics = select build_statistics table (
    where_clause (equals product_name parameter)
    ∷ order_by (order_clause id false ∷ [])
    ∷ limit (constant 1)
    ∷ offset (constant 0)
    ∷ [])

abbrev pub inserted : List Value
inserted =
    record { column_type = region; bind = parameter }
    ∷ record { column_type = product_name; bind = parameter }
    ∷ record { column_type = build_name; bind = parameter }
    ∷ record { column_type = build_config; bind = parameter }
    ∷ record { column_type = cdn_config; bind = parameter }
    ∷ record { column_type = detected_at; bind = parameter }
    ∷ []

abbrev pub insert_build : Component
insert_build = returning (insert table inserted) (projection (bind_columns table columns))

-- ===== src/Backend/Entities/BoundChannels.antt =====
-- src/tactmon/backend/db/entity/BoundChannel.hpp.
use tactmon.Prelude.{List, [], ◌∷◌, map, Bytes, codes}
use tactmon.Backend.Orm.{Component, ValueType, text, word32, word64}
use tactmon.Backend.Orm.Shared.{
  column, entity, bind_columns, projection, where_clause, conjunction, equals, parameter,
}
use tactmon.Backend.Orm.Statements.{select, insert, delete_from}

abbrev pub columns : List (Bytes × ValueType)
columns =
    (codes "id", word32)
    ∷ (codes "guild_id", word64)
    ∷ (codes "channel_id", word64)
    ∷ (codes "product_name", text)
    ∷ []

abbrev pub guild_id : Component
guild_id = column (codes "guild_id") word64

abbrev pub channel_id : Component
channel_id = column (codes "channel_id") word64

abbrev pub product_name : Component
product_name = column (codes "product_name") text

-- `bound_channel::Entity`.
abbrev pub table : Component
table = entity (codes "bound_channels") (codes "public") (map (λ c. column c.0 c.1) columns)

abbrev pub select_all : Component
select_all = select (projection (bind_columns table columns)) table []

abbrev pub insert_channel : Component
insert_channel = insert table (
    record { column_type = guild_id; bind = parameter }
    ∷ record { column_type = channel_id; bind = parameter }
    ∷ record { column_type = product_name; bind = parameter }
    ∷ [])

abbrev pub delete_channel : Component
delete_channel =
    delete_from table (
      where_clause (conjunction (equals channel_id parameter ∷ equals product_name parameter ∷ [])))

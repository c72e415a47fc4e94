-- ===== src/Backend/Entities/TrackedFiles.antt =====
-- src/tactmon/backend/db/entity/TrackedFile.hpp.
use tactmon.Prelude.{List, [], ◌∷◌, map, Bytes, codes}
use tactmon.Backend.Orm.{Component, ValueType, text, word32}
use tactmon.Backend.Orm.Shared.{
  column, entity, bind_columns, projection, where_clause, conjunction, equals, parameter,
}
use tactmon.Backend.Orm.Statements.{select, insert, delete_from}

abbrev pub columns : List (Bytes × ValueType)
columns =
    (codes "id", word32)
    ∷ (codes "product_name", text)
    ∷ (codes "file_path", text)
    ∷ (codes "display_name", text)
    ∷ []

abbrev pub product_name : Component
product_name = column (codes "product_name") text

abbrev pub file_path : Component
file_path = column (codes "file_path") text

abbrev pub display_name : Component
display_name = column (codes "display_name") text

-- `tracked_file::Entity`.
abbrev pub table : Component
table = entity (codes "tracked_files") (codes "public") (map (λ c. column c.0 c.1) columns)

abbrev pub select_all : Component
select_all = select (projection (bind_columns table columns)) table []

abbrev pub insert_file : Component
insert_file = insert table (
    record { column_type = product_name; bind = parameter }
    ∷ record { column_type = file_path; bind = parameter }
    ∷ record { column_type = display_name; bind = parameter }
    ∷ [])

abbrev pub delete_file : Component
delete_file =
    delete_from table
      (where_clause (conjunction (equals product_name parameter ∷ equals file_path parameter ∷ [])))

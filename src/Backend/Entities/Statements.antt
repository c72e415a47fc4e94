-- ===== src/Backend/Entities/Statements.antt =====
-- Every statement of the application, with the arguments that the repositories give to it.
use tactmon.Prelude.{ℕ, refl, false, some, List, [], ◌∷◌, ◌++◌, codes, All, All-append}
use tactmon.Backend.Orm.{Component, ValueType, text, word32, word64, types_of}
use tactmon.Backend.Orm.Shared.{
  column, column_of, entity, bind_columns, projection, where_clause, conjunction, equals, parameter,
  constant, limit, offset, order_by,
}
use tactmon.Backend.Orm.Selectors.{count, alias, over, partition_by}
use tactmon.Backend.Orm.Statements.{
  bound_values, select, insert, update, update_where, delete_from, returning, on_conflict,
  update_from_excluded, set_clause,
}
use tactmon.Backend.Orm.Renders.{Renders}
use tactmon.Backend.Orm.Renders.Components.{
  column-Renders, projection-Renders, constant-Renders, behind-Renders, listed-Renders,
  order_clause-Renders, function-Renders, alias-Renders, over-Renders, partition_by-Renders,
}
use tactmon.Backend.Orm.Renders.Queries.{
  select-Renders, returning-Renders, update-Renders, update_where-Renders, delete_from-Renders,
  on_conflict-Renders, update_from_excluded-Renders,
}
use tactmon.Backend.Entities.Numbering.{
  test-Renders, where_test-Renders, where_tests-Renders, table-types, table-Renders, row-Renders,
  insert_values-Renders, select_rows-Renders, select_where-Renders, IsNumbered,
}
use tactmon.Backend.Entities.Products
use tactmon.Backend.Entities.Builds
use tactmon.Backend.Entities.BoundChannels
use tactmon.Backend.Entities.TrackedFiles
use tactmon.Backend.Entities.CommandStates

update_product-Renders : Renders Products.update_product 1
unfolding set_clause
update_product-Renders =
    let assignment = equals Products.sequence_id parameter ∷ [] in
    update_where-Renders (update Products.table (set_clause assignment))
      (equals Products.name parameter) 1
      (update-Renders Products.table (set_clause assignment) 1
        (table-Renders (codes "products") Products.columns 1)
        (listed-Renders (codes " SET ") assignment _
          (test-Renders (codes "sequence_id") word64 _, tt)))
      (test-Renders (codes "name") text _)

select_by_name-Renders : Renders Builds.select_by_name 1
select_by_name-Renders =
    select-Renders _ Builds.table _ 1 (row-Renders (codes "builds") Builds.columns 1)
      (table-Renders (codes "builds") Builds.columns _)
      (where_tests-Renders (codes "build_name") (codes "region") text text _, tt)

select_by_product-Renders : Renders Builds.select_by_product 1
select_by_product-Renders =
    select-Renders Builds.named_build Builds.table _ 1
      (projection-Renders _ 1
        (column-Renders (codes "id") word32 1, (column-Renders (codes "build_name") text _, tt)))
      (table-Renders (codes "builds") Builds.columns _)
      (where_test-Renders (codes "product_name") text _, tt)

statistics-Renders : (p : ℕ) → Renders Builds.build_statistics p
unfolding count
statistics-Renders p =
    let counted = over (count Builds.id) (partition_by Builds.product_name) in
    projection-Renders _ p (
      alias-Renders (codes "id_count") counted p (
          over-Renders (count Builds.id) (partition_by Builds.product_name) p
            (function-Renders (some word64) (codes "COUNT") (Builds.id ∷ []) p
              (column-Renders (codes "id") word32 p, tt))
            (partition_by-Renders Builds.product_name _
              (column-Renders (codes "product_name") text _))),
      (
        column-Renders (codes "build_name") text _,
        (
          column-Renders (codes "detected_at") word64 _,
          (
            column-Renders (codes "build_config") text _,
            (column-Renders (codes "cdn_config") text _, tt),
          ),
        ),
      ),
    )

select_statistics-Renders : Renders Builds.select_statistics 1
unfolding limit offset order_by
select_statistics-Renders =
    select-Renders Builds.build_statistics Builds.table _ 1 (statistics-Renders 1)
      (table-Renders (codes "builds") Builds.columns _)
      (
        where_test-Renders (codes "product_name") text _,
        (
          listed-Renders (codes "ORDER BY ") _ _
              (order_clause-Renders Builds.id false _ (column-Renders (codes "id") word32 _), tt),
          (
            behind-Renders (codes "LIMIT ") (constant 1) _ (constant-Renders 1 _),
            (behind-Renders (codes "OFFSET ") (constant 0) _ (constant-Renders 0 _), tt),
          ),
        ),
      )

insert_build-Renders : Renders Builds.insert_build 1
insert_build-Renders =
    returning-Renders _ _ 1
      (insert_values-Renders (codes "builds") Builds.columns
        ((codes "region", text)
          ∷ (codes "product_name", text)
          ∷ (codes "build_name", text)
          ∷ (codes "build_config", text)
          ∷ (codes "cdn_config", text)
          ∷ (codes "detected_at", word64)
          ∷ [])
        1)
      (row-Renders (codes "builds") Builds.columns _)

delete_channel-Renders : Renders BoundChannels.delete_channel 1
delete_channel-Renders =
    delete_from-Renders BoundChannels.table _ 1
      (table-types (codes "bound_channels") BoundChannels.columns)
      (table-Renders (codes "bound_channels") BoundChannels.columns 1)
      (where_tests-Renders (codes "channel_id") (codes "product_name") word64 text 1)

delete_file-Renders : Renders TrackedFiles.delete_file 1
delete_file-Renders =
    delete_from-Renders TrackedFiles.table _ 1
      (table-types (codes "tracked_files") TrackedFiles.columns)
      (table-Renders (codes "tracked_files") TrackedFiles.columns 1)
      (where_tests-Renders (codes "product_name") (codes "file_path") text text 1)

insert_or_update-Renders : Renders CommandStates.insert_or_update 1
insert_or_update-Renders =
    on_conflict-Renders _ _ (update_from_excluded CommandStates.table CommandStates.updated) 1
      (unfold column in refl)
      (insert_values-Renders (codes "command_states") CommandStates.columns CommandStates.updated 1)
      (column-Renders (codes "id") word32 _)
      (update_from_excluded-Renders CommandStates.table CommandStates.updated _
        (table-types (codes "command_states") CommandStates.columns))

abbrev product_statements : List (Component × List ValueType)
product_statements =
    (Products.select_all, [])
    ∷ (Products.select_by_name, text ∷ [])
    ∷ (Products.select_by_id, word32 ∷ [])
    ∷ (Products.insert_product, text ∷ word64 ∷ [])
    ∷ (Products.update_product, word64 ∷ text ∷ [])
    ∷ []

product_statements-IsNumbered : All IsNumbered product_statements
unfolding select insert update update_where delete_from returning on_conflict update_from_excluded
    projection entity bind_columns types_of column column_of where_clause conjunction equals
    parameter bound_values set_clause constant limit offset order_by count alias over partition_by
    tactmon.Backend.Orm.Shared.behind tactmon.Backend.Orm.Shared.enclosed
    tactmon.Backend.Orm.Shared.listed tactmon.Backend.Orm.Shared.order_clause
    tactmon.Backend.Orm.Shared.binary_criteria tactmon.Backend.Orm.Selectors.function
product_statements-IsNumbered = (
  (refl, select_rows-Renders (codes "products") Products.columns),
  (
    (refl, select_where-Renders (codes "products") Products.columns (codes "name") text),
    (
      (refl, select_where-Renders (codes "products") Products.columns (codes "id") word32),
      (
        (
          refl,
          insert_values-Renders (codes "products") Products.columns
              ((codes "name", text) ∷ (codes "sequence_id", word64) ∷ []) 1,
        ),
        ((refl, update_product-Renders), tt),
      ),
    ),
  ),
)

abbrev build_statements : List (Component × List ValueType)
build_statements =
    (Builds.select_all, [])
    ∷ (Builds.select_by_name, text ∷ text ∷ [])
    ∷ (Builds.select_by_id, word32 ∷ [])
    ∷ (Builds.select_by_product, text ∷ [])
    ∷ (Builds.select_statistics, text ∷ [])
    ∷ (Builds.insert_build, text ∷ text ∷ text ∷ text ∷ text ∷ word64 ∷ [])
    ∷ []

build_statements-IsNumbered : All IsNumbered build_statements
unfolding select insert update update_where delete_from returning on_conflict update_from_excluded
    projection entity bind_columns types_of column column_of where_clause conjunction equals
    parameter bound_values set_clause constant limit offset order_by count alias over partition_by
    tactmon.Backend.Orm.Shared.behind tactmon.Backend.Orm.Shared.enclosed
    tactmon.Backend.Orm.Shared.listed tactmon.Backend.Orm.Shared.order_clause
    tactmon.Backend.Orm.Shared.binary_criteria tactmon.Backend.Orm.Selectors.function
build_statements-IsNumbered = (
  (refl, select_rows-Renders (codes "builds") Builds.columns),
  (
    (refl, select_by_name-Renders),
    (
      (refl, select_where-Renders (codes "builds") Builds.columns (codes "id") word32),
      (
        (refl, select_by_product-Renders),
        ((refl, select_statistics-Renders), ((refl, insert_build-Renders), tt)),
      ),
    ),
  ),
)

abbrev channel_statements : List (Component × List ValueType)
channel_statements =
    (BoundChannels.select_all, [])
    ∷ (BoundChannels.insert_channel, word64 ∷ word64 ∷ text ∷ [])
    ∷ (BoundChannels.delete_channel, word64 ∷ text ∷ [])
    ∷ []

channel_statements-IsNumbered : All IsNumbered channel_statements
unfolding select insert update update_where delete_from returning on_conflict update_from_excluded
    projection entity bind_columns types_of column column_of where_clause conjunction equals
    parameter bound_values set_clause constant limit offset order_by count alias over partition_by
    tactmon.Backend.Orm.Shared.behind tactmon.Backend.Orm.Shared.enclosed
    tactmon.Backend.Orm.Shared.listed tactmon.Backend.Orm.Shared.order_clause
    tactmon.Backend.Orm.Shared.binary_criteria tactmon.Backend.Orm.Selectors.function
channel_statements-IsNumbered = (
  (refl, select_rows-Renders (codes "bound_channels") BoundChannels.columns),
  (
    (
      refl,
      insert_values-Renders (codes "bound_channels") BoundChannels.columns
          ((codes "guild_id", word64)
            ∷ (codes "channel_id", word64)
            ∷ (codes "product_name", text)
            ∷ [])
          1,
    ),
    ((refl, delete_channel-Renders), tt),
  ),
)

abbrev file_statements : List (Component × List ValueType)
file_statements =
    (TrackedFiles.select_all, [])
    ∷ (TrackedFiles.insert_file, text ∷ text ∷ text ∷ [])
    ∷ (TrackedFiles.delete_file, text ∷ text ∷ [])
    ∷ []

file_statements-IsNumbered : All IsNumbered file_statements
unfolding select insert update update_where delete_from returning on_conflict update_from_excluded
    projection entity bind_columns types_of column column_of where_clause conjunction equals
    parameter bound_values set_clause constant limit offset order_by count alias over partition_by
    tactmon.Backend.Orm.Shared.behind tactmon.Backend.Orm.Shared.enclosed
    tactmon.Backend.Orm.Shared.listed tactmon.Backend.Orm.Shared.order_clause
    tactmon.Backend.Orm.Shared.binary_criteria tactmon.Backend.Orm.Selectors.function
file_statements-IsNumbered = (
  (refl, select_rows-Renders (codes "tracked_files") TrackedFiles.columns),
  (
    (
      refl,
      insert_values-Renders (codes "tracked_files") TrackedFiles.columns
          ((codes "product_name", text)
            ∷ (codes "file_path", text)
            ∷ (codes "display_name", text)
            ∷ [])
          1,
    ),
    ((refl, delete_file-Renders), tt),
  ),
)

abbrev command_statements : List (Component × List ValueType)
command_statements =
    (CommandStates.select_all, [])
    ∷ (CommandStates.select_by_name, text ∷ [])
    ∷ (CommandStates.insert_or_update, text ∷ word64 ∷ word32 ∷ [])
    ∷ []

command_statements-IsNumbered : All IsNumbered command_statements
unfolding select insert update update_where delete_from returning on_conflict update_from_excluded
    projection entity bind_columns types_of column column_of where_clause conjunction equals
    parameter bound_values set_clause constant limit offset order_by count alias over partition_by
    tactmon.Backend.Orm.Shared.behind tactmon.Backend.Orm.Shared.enclosed
    tactmon.Backend.Orm.Shared.listed tactmon.Backend.Orm.Shared.order_clause
    tactmon.Backend.Orm.Shared.binary_criteria tactmon.Backend.Orm.Selectors.function
command_statements-IsNumbered = (
  (refl, select_rows-Renders (codes "command_states") CommandStates.columns),
  (
    (refl, select_where-Renders (codes "command_states") CommandStates.columns (codes "name") text),
    ((refl, insert_or_update-Renders), tt),
  ),
)

-- The statements that the repositories prepare.
abbrev pub statements : List (Component × List ValueType)
statements =
    product_statements
    ++ (build_statements ++ (channel_statements ++ (file_statements ++ command_statements)))

-- Each of the twenty prepared statements is written without a failed assertion; its parameters are
-- numbered $1, $2 and so on, in the order in which they stand in the text, one for each of the
-- argument types with which the repositories call it.
pub statements-IsNumbered : All IsNumbered statements
statements-IsNumbered =
    let last = file_statements ++ command_statements in
    let later = channel_statements ++ last in
    All-append IsNumbered product_statements (build_statements ++ later)
      product_statements-IsNumbered
      (All-append IsNumbered build_statements later build_statements-IsNumbered (
        All-append IsNumbered channel_statements last channel_statements-IsNumbered (
          All-append IsNumbered file_statements command_statements file_statements-IsNumbered
            command_statements-IsNumbered)))

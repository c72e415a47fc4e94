-- ===== src/Tests/Statements.antt =====
-- The texts of statements, and the theorems of db/orm at concrete inputs.
use tactmon.Prelude.{◌≡◌, refl, some, [], ◌∷◌, ◌++◌, codes}
use tactmon.Backend.Orm.{
  Component, ValueType, text, word32, word64, types_of, render_all, render_rest,
}
use tactmon.Backend.Orm.Digits.{explode, explode_digits}
use tactmon.Backend.Orm.Shared.{
  column, column_of, entity, bind_columns, projection, where_clause, conjunction, equals, parameter,
  bound_parameter, constant, limit, offset, order_by,
}
use tactmon.Backend.Orm.Selectors.{count, alias, over, partition_by}
use tactmon.Backend.Orm.Statements.{
  select, insert, update, update_where, delete_from, on_conflict, update_from_excluded, set_clause,
  as_string,
}
use tactmon.Backend.Orm.Renders.{Renders}
use tactmon.Backend.Orm.Renders.Components.{
  column-Renders, entity-Renders, projection-Renders, behind-Renders, binary_criteria-Renders,
  parameter-Renders,
}
use tactmon.Backend.Orm.Renders.Queries.{select-Renders}
use tactmon.Backend.Entities.Products
use tactmon.Backend.Entities.Builds
use tactmon.Backend.Entities.BoundChannels
use tactmon.Backend.Entities.CommandStates

update_product_text :
    as_string Products.update_product
    ≡ some (codes "UPDATE public.products  SET  sequence_id = $1 WHERE  name = $2")
unfolding as_string update_where update set_clause tactmon.Backend.Orm.Shared.listed equals
    tactmon.Backend.Orm.Shared.binary_criteria entity column parameter render_all render_rest
    explode explode_digits
update_product_text = refl

-- There is no space behind FROM.
delete_channel_text :
    as_string BoundChannels.delete_channel
    ≡ some
        (codes "DELETE FROMpublic.bound_channels WHERE ( channel_id = $1 AND  product_name = $2)")
unfolding as_string delete_from where_clause conjunction tactmon.Backend.Orm.Shared.behind
    tactmon.Backend.Orm.Shared.enclosed equals tactmon.Backend.Orm.Shared.binary_criteria entity
    column parameter render_all render_rest explode explode_digits
delete_channel_text = refl

insert_or_update_text :
    as_string CommandStates.insert_or_update
    ≡ some (
        codes "INSERT INTO public.command_states ( name,  hash,  version) VALUES ($1, $2, $3)"
        ++ (codes " ON CONFLICT ( id) DO UPDATE SET  name = EXCLUDED.name,  hash = EXCLUDED.hash"
            ++ codes ",  version = EXCLUDED.version"))
unfolding as_string insert on_conflict update_from_excluded equals
    tactmon.Backend.Orm.Shared.binary_criteria entity column column_of parameter render_all
    render_rest explode explode_digits
insert_or_update_text = refl

-- Nothing stands behind OFFSET.
select_statistics_text :
    as_string Builds.select_statistics
    ≡ some (
        codes "SELECT COUNT( id) OVER (PARTITION BY  product_name) AS id_count,  build_name,"
        ++ (codes "  detected_at,  build_config,  cdn_config FROM public.builds "
            ++ codes "WHERE  product_name = $1 ORDER BY  id DESC LIMIT 1 OFFSET "))
unfolding as_string select projection alias over count partition_by
    tactmon.Backend.Orm.Selectors.function where_clause order_by limit offset constant
    tactmon.Backend.Orm.Shared.behind tactmon.Backend.Orm.Shared.listed
    tactmon.Backend.Orm.Shared.order_clause equals tactmon.Backend.Orm.Shared.binary_criteria entity
    column parameter render_all render_rest explode explode_digits
select_statistics_text = refl

-- `SELECT id FROM s.t WHERE name = $1`.
abbrev name_test : Component
name_test = where_clause (equals (column (codes "name") text) parameter)

abbrev ids : Component
ids = projection (column (codes "id") word32 ∷ [])

abbrev rows : Component
rows = entity (codes "t") (codes "s") []

name_test-Renders : Renders name_test 1
unfolding where_clause equals
name_test-Renders =
    behind-Renders (codes "WHERE ") (equals (column (codes "name") text) parameter) 1 (
      binary_criteria-Renders (codes " = ") (column (codes "name") text) parameter 1
        (column-Renders (codes "name") text 1)
        (parameter-Renders (column (codes "name") text) text _ (unfold column in refl)))

select-Renders_example : Renders (select ids rows (name_test ∷ [])) 1
unfolding projection entity types_of column
select-Renders_example =
    select-Renders ids rows (name_test ∷ []) 1
      (projection-Renders (column (codes "id") word32 ∷ []) 1
        (column-Renders (codes "id") word32 1, tt))
      (entity-Renders (codes "t") (codes "s") [] 1 refl) (name_test-Renders, tt)

-- ===== src/Admin/Queries.antt =====
-- Tests of the check of the SQL console, src/admin/sql.ts: SELECT * FROM ?.
use msrouter.Prelude.{◌≡◌, refl, true, false, [], ◌∷◌, arith, ◌==◌, text_eq, text}
use msrouter.Json.{Json, number, array, object, nil, cons, Fields, end, field}
use msrouter.Admin.Sql.{Statement, is_bad_from, inspect_node, is_read_only_select}
use msrouter.Admin.Reading.{top, whole, is_read_only_select-PartOf, nest, inspect_node-nest}

abbrev source : Json
source = object (field (text "param") (number (text "0")) end)

abbrev tree : Fields
tree = field (text "from") (array (cons source nil)) end

abbrev select : Statement
select = record { constructor_name = text "Select"; tree = object tree }

select_passes : is_read_only_select (select ∷ []) ≡ true
unfolding is_read_only_select inspect_node
select_passes = refl

is_read_only_select-PartOf_example :
    (text "Select" ≡ text "Select")
    × ((text "from" == text "queriesidx") ≡ false)
    × (is_bad_from (text "from") (array (cons source nil)) ≡ false)
is_read_only_select-PartOf_example =
    is_read_only_select-PartOf select 0 tree (text "from") (array (cons source nil)) select_passes
      whole (omega arith) top

-- a subquery, out of reach
abbrev subquery : Json
subquery = object (field (text "queriesidx") (number (text "1")) end)

deep_unseen : inspect_node (nest 65 subquery) 0 ≡ false
deep_unseen = inspect_node-nest 65 0 subquery (omega arith)

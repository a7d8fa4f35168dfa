-- ===== src/Admin/Sql.antt =====
-- The check that a statement of the SQL console only reads the bound users: `assertReadOnlySelect` and
-- `inspectNode`, src/admin/sql.ts. The SQL library's parser is a parameter; a statement is the name of its
-- constructor and its tree.
use msrouter.Prelude.{
  ℕ, ◌+◌, Bool, true, false, not, ◌&&◌, ◌||◌, Option, none, some, List, [], ◌∷◌, ◌==◌, text_eq, ltb,
  if◌then◌else◌, Text, text,
}
use msrouter.Json.{Json, number, array, object, Items, nil, cons, Fields, end, field, prop}

pub record Statement : Type 0 where
  pub constructor_name : Text
  pub tree : Json

abbrev is_param : Option Json → Bool
is_param (some (number t)) = true
is_param _ = false

-- every source is the bound parameter
abbrev pub all_params : Items → Bool
all_params nil = true
all_params (cons src rest) = is_param (prop (text "param") src) && all_params rest

abbrev pub is_bad_from : Text → Json → Bool
is_bad_from k (array srcs) = k == text "from" && not (all_params srcs)
is_bad_from k _ = false

abbrev pub max_ast_depth : ℕ
max_ast_depth = 64

unfoldable mutual
  -- whether something of the tree is refused
  pub inspect_node : Json → ℕ → Bool
  inspect_node (array xs) depth =
      if ltb max_ast_depth depth then false else inspect_items xs (depth + 1)
  inspect_node (object fs) depth =
      if ltb max_ast_depth depth then false else inspect_fields fs (depth + 1)
  inspect_node _ depth = false

  pub inspect_items : Items → ℕ → Bool
  inspect_items nil depth = false
  inspect_items (cons x xs) depth = inspect_node x depth || inspect_items xs depth

  pub inspect_fields : Fields → ℕ → Bool
  inspect_fields end depth = false
  inspect_fields (field k v fs) depth =
      k == text "queriesidx"
      || (is_bad_from k v || (inspect_node v depth || inspect_fields fs depth))

abbrev pub is_undefined : Option Json → Bool
is_undefined none = true
is_undefined (some v) = false

abbrev pub is_param_list : Option Json → Bool
is_param_list (some (array (cons src rest))) = all_params (cons src rest)
is_param_list _ = false

-- `assertReadOnlySelect`, of the statements that the parser returns
unfoldable pub is_read_only_select : List Statement → Bool
is_read_only_select (s ∷ []) =
    s.constructor_name == text "Select"
    && (is_undefined (prop (text "into") s.tree)
        && (is_param_list (prop (text "from") s.tree) && not (inspect_node s.tree 0)))
is_read_only_select _ = false

-- ===== src/Admin/File.antt =====
-- The users file: `UsersFile` of src/shared/schema.ts, and what `save` writes and `load` reads,
-- src/admin/userStore.ts.
use msrouter.Prelude.{
  ℕ, ◌≡◌, refl, inl, inr, Bool, false, ◌&&◌, Option, none, some, List, [], ◌∷◌, arith, ◌==◌,
  text_eq, leb, if◌then◌else◌, length, every, Text, text, Bool-cases,
}
use msrouter.Json.{
  Json, number, string, array, object, Items, nil, cons, Fields, end, field, get_field,
}
use msrouter.Admin.Schema.{
  ColumnType, string_column, number_column, boolean_column, ColumnDef, is_dynamic, is_column_def,
  is_column_def-dynamic, type_of, parse_column, parse_column_fields, Formats, is_user_record,
}

pub record UsersDoc : Type 0 where
  pub columns : List ColumnDef
  pub users : List Fields

abbrev type_text : ColumnType → Text
type_text string_column = text "string"
type_text number_column = text "number"
type_text boolean_column = text "boolean"

abbrev default_field : Option Json → Fields
default_field none = end
default_field (some v) = field (text "defaultValue") v end

abbrev pub column_json : ColumnDef → Json
column_json d = object (
    field (text "name") (string d.name)
      (field (text "type") (string (type_text d.type)) (default_field d.default_value)))

abbrev pub columns_items : List ColumnDef → Items
columns_items [] = nil
columns_items (d ∷ ds) = cons (column_json d) (columns_items ds)

abbrev pub users_items : List Fields → Items
users_items [] = nil
users_items (u ∷ us) = cons (object u) (users_items us)

-- the document that `writeAtomically` writes
unfoldable pub doc_json : UsersDoc → Json
doc_json d = object (
    field (text "schemaVersion") (number (text "1")) (
      field (text "columns") (array (columns_items d.columns))
        (field (text "users") (array (users_items d.users)) end)))

abbrev cons_if : {A : Type 0} → Option A → Option (List A) → Option (List A)
cons_if (some x) (some xs) = some (x ∷ xs)
cons_if _ _ = none

abbrev pub parse_columns : Items → Option (List ColumnDef)
parse_columns nil = some []
parse_columns (cons x xs) = cons_if (parse_column x) (parse_columns xs)

abbrev at_most : {A : Type 0} → ℕ → Option (List A) → Option (List A)
at_most n none = none
at_most n (some xs) = if leb (length xs) n then some xs else none

abbrev doc_of : Option (List ColumnDef) → Option (List Fields) → Option UsersDoc
doc_of (some columns) (some users) = some (record { columns = columns; users = users })
doc_of _ _ = none

abbrev is_version : Option Json → Bool
is_version (some (number t)) = t == text "1"
is_version _ = false

abbrev columns_of : Option Json → Option (List ColumnDef)
columns_of (some (array xs)) = at_most 50 (parse_columns xs)
columns_of _ = none

type_of-text : (t : ColumnType) → type_of (some (type_text t)) ≡ some t
type_of-text string_column = refl
type_of-text number_column = refl
type_of-text boolean_column = refl

parse_column-json :
    (name : Text) (t : ColumnType) (v : Option Json)
    → parse_column (column_json (record { name = name; type = t; default_value = v })) ≡ (
        if is_column_def (record { name = name; type = t; default_value = v })
        then some (record { name = name; type = t; default_value = v })
        else none)
unfolding parse_column parse_column_fields is_column_def
parse_column-json name string_column none = refl
parse_column-json name number_column none = refl
parse_column-json name boolean_column none = refl
parse_column-json name t (some v) = elim (Bool-cases (is_dynamic v)) [
  | inl fine ↦ rw (parse_column_fields, fine, type_of-text t) refl
  | inr bad ↦ rw (parse_column_fields, bad, is_column_def-dynamic name t v bad) refl
]

module _ (f : Formats) where
  abbrev user_of : Json → Option Fields
  user_of (object fs) = if is_user_record f fs then some fs else none
  user_of _ = none

  abbrev pub parse_users : Items → Option (List Fields)
  parse_users nil = some []
  parse_users (cons x xs) = cons_if (user_of x) (parse_users xs)

  abbrev users_of : Option Json → Option (List Fields)
  users_of (some (array xs)) = at_most 1000 (parse_users xs)
  users_of _ = none

  abbrev parse_fields : Fields → Option UsersDoc
  parse_fields fs =
      if is_version (get_field (text "schemaVersion") fs)
      then doc_of (columns_of (get_field (text "columns") fs))
          (users_of (get_field (text "users") fs))
      else none

  -- `UsersFile.safeParse`
  unfoldable pub parse_users_file : Json → Option UsersDoc
  parse_users_file (object fs) = parse_fields fs
  parse_users_file _ = none

  -- A document that the schema takes.
  abbrev pub is_users_file : UsersDoc → Bool
  is_users_file d =
      leb (length d.columns) 50
      && (every is_column_def d.columns
          && (leb (length d.users) 1000 && every (is_user_record f) d.users))

  parse_columns-items :
      (ds : List ColumnDef)
      → parse_columns (columns_items ds) ≡ (if every is_column_def ds then some ds else none)
  parse_columns-items [] = refl
  parse_columns-items (d ∷ ds) =
      rw (parse_column-json d.name d.type d.default_value, parse_columns-items ds) (ground arith)

  parse_users-items :
      (us : List Fields)
      → parse_users (users_items us) ≡ (if every (is_user_record f) us then some us else none)
  parse_users-items [] = refl
  parse_users-items (u ∷ us) = rw (parse_users-items us) (ground arith)

  -- A saved document is read back as it was exactly if the schema takes it; any other is refused.
  pub parse_users_file-doc_json :
      (d : UsersDoc) → parse_users_file (doc_json d) ≡ (if is_users_file d then some d else none)
  unfolding parse_users_file doc_json
  parse_users_file-doc_json d =
      rw (parse_columns-items d.columns, parse_users-items d.users) (ground arith)

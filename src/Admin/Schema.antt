-- ===== src/Admin/Schema.antt =====
-- The schemas of the admin server, src/shared/schema.ts. The tests of an email address and of a date
-- are the schema library's: they are parameters. A user is a row of fields, as the store keeps it.
use msrouter.Prelude.{
  ℕ, ◌≡◌, refl, arith, Bool, true, false, not, ◌&&◌, ◌||◌, Option, none, some, List, [], ◌∷◌, ◌==◌,
  nat_eq, text_eq, leb, if◌then◌else◌, length, every, contains, Text, text,
}
use msrouter.Json.{Json, null, bool, number, string, array, object, Fields, end, field, get_field}

abbrev pub is_between : ℕ → ℕ → Text → Bool
is_between lo hi s = leb lo (length s) && leb (length s) hi

abbrev is_lower : ℕ → Bool
is_lower c = leb b'a' c && leb c b'z'

abbrev is_letter : ℕ → Bool
is_letter c = is_lower c || (leb b'A' c && leb c b'Z')

abbrev is_digit : ℕ → Bool
is_digit c = leb b'0' c && leb c b'9'

abbrev pub reserved_user_fields : List Text
reserved_user_fields =
    text "username"
    ∷ text "passwordHash"
    ∷ text "role"
    ∷ text "email"
    ∷ text "displayName"
    ∷ text "active"
    ∷ text "createdAt"
    ∷ []

-- `/^[a-zA-Z][a-zA-Z0-9_]*$/`
abbrev is_name : Text → Bool
is_name [] = false
is_name (c ∷ s) = is_letter c && every (λ d. is_letter d || (is_digit d || d == b'_')) s

abbrev pub is_column_name : Text → Bool
is_column_name s = is_between 1 40 s && is_name s

pub data ColumnType : Type 0 where
  string_column number_column boolean_column : ColumnType

pub record ColumnDef : Type 0 where
  pub name : Text
  pub type : ColumnType
  pub default_value : Option Json

-- a string, a number, a boolean or null
abbrev pub is_dynamic : Json → Bool
is_dynamic (array xs) = false
is_dynamic (object fs) = false
is_dynamic _ = true

abbrev is_string : Json → Bool
is_string (string s) = true
is_string _ = false

abbrev is_number : Json → Bool
is_number (number s) = true
is_number _ = false

abbrev is_boolean : Json → Bool
is_boolean null = true
is_boolean (bool b) = true
is_boolean _ = false

abbrev matches_type : ColumnType → Json → Bool
matches_type string_column v = is_string v
matches_type number_column v = is_number v
matches_type boolean_column v = is_boolean v

abbrev is_default : ColumnType → Option Json → Bool
is_default type none = true
is_default type (some v) = matches_type type v

-- what `ColumnDef` asks beyond the types of its fields
unfoldable pub is_column_def : ColumnDef → Bool
is_column_def d =
    is_column_name d.name
    && (not (contains d.name reserved_user_fields) && is_default d.type d.default_value)

abbrev checked_column : ColumnDef → Option ColumnDef
checked_column d = if is_column_def d then some d else none

abbrev column_of : Option Text → Option ColumnType → Option Json → Option ColumnDef
column_of (some name) (some type) default =
    checked_column (record { name = name; type = type; default_value = default })
column_of _ _ default = none

abbrev pub string_of : Option Json → Option Text
string_of (some (string s)) = some s
string_of _ = none

abbrev pub type_of : Option Text → Option ColumnType
type_of none = none
type_of (some s) =
    if s == text "string"
    then some string_column
    else if s == text "number"
    then some number_column
    else if s == text "boolean"
    then some boolean_column
    else none

abbrev is_dynamic? : Option Json → Bool
is_dynamic? none = true
is_dynamic? (some v) = is_dynamic v

unfoldable pub parse_column_fields : Fields → Option ColumnDef
unfolding is_column_def
parse_column_fields fs =
    if is_dynamic? (get_field (text "defaultValue") fs)
    then column_of (string_of (get_field (text "name") fs))
        (type_of (string_of (get_field (text "type") fs))) (get_field (text "defaultValue") fs)
    else none

-- `ColumnDef.safeParse`
unfoldable pub parse_column : Json → Option ColumnDef
unfolding parse_column_fields
parse_column (object fs) = parse_column_fields fs
parse_column _ = none

pub data UserRole : Type 0 where
  admin viewer : UserRole

abbrev pub role_of : Option Json → Option UserRole
role_of (some (string s)) =
    if s == text "admin" then some admin else if s == text "viewer" then some viewer else none
role_of _ = none

abbrev pub role_text : UserRole → Text
role_text admin = text "admin"
role_text viewer = text "viewer"

-- `/^[a-z0-9_-]+$/`, of a text that is not empty
abbrev pub is_username : Text → Bool
is_username s =
    is_between 3 32 s && every (λ c. is_lower c || (is_digit c || (c == b'_' || c == b'-'))) s

abbrev string_that : (Text → Bool) → Option Json → Bool
string_that p (some (string s)) = p s
string_that p _ = false

abbrev pub is_role : Option Json → Bool
is_role v = elim (role_of v) [ none ↦ false | some r ↦ true ]

abbrev pub is_bool : Option Json → Bool
is_bool (some (bool b)) = true
is_bool _ = false

abbrev others_dynamic : Fields → Bool
others_dynamic end = true
others_dynamic (field k v fs) =
    (contains k reserved_user_fields || is_dynamic v) && others_dynamic fs

pub record Formats : Type 0 where
  pub is_email : Text → Bool
  pub is_datetime : Text → Bool

module _ (f : Formats) where
  open f use {is_email, is_datetime}

  -- `UserRecord`
  unfoldable pub is_user_record : Fields → Bool
  is_user_record fs =
      string_that is_username (get_field (text "username") fs)
      && (string_that (λ s. leb 1 (length s)) (get_field (text "passwordHash") fs)
          && (is_role (get_field (text "role") fs)
              && (string_that is_email (get_field (text "email") fs)
                  && (string_that (is_between 1 64) (get_field (text "displayName") fs)
                      && (is_bool (get_field (text "active") fs)
                          && (string_that is_datetime (get_field (text "createdAt") fs)
                              && others_dynamic fs))))))

pub and_false : (a b : Bool) → (a && (b && false)) ≡ false
and_false a b = ground arith

matches_type-dynamic : (t : ColumnType) (v : Json) → is_dynamic v ≡ false → matches_type t v ≡ false
matches_type-dynamic t null h = cc
matches_type-dynamic t (bool b) h = cc
matches_type-dynamic t (number s) h = cc
matches_type-dynamic t (string s) h = cc
matches_type-dynamic string_column (array xs) h = refl
matches_type-dynamic number_column (array xs) h = refl
matches_type-dynamic boolean_column (array xs) h = refl
matches_type-dynamic string_column (object fs) h = refl
matches_type-dynamic number_column (object fs) h = refl
matches_type-dynamic boolean_column (object fs) h = refl

-- A default that is an array or an object makes no column.
pub is_column_def-dynamic :
    (name : Text) (t : ColumnType) (v : Json)
    → is_dynamic v ≡ false
    → is_column_def (record { name = name; type = t; default_value = some v }) ≡ false
unfolding is_column_def
is_column_def-dynamic name t v h =
    rw (matches_type-dynamic t v h)
      (and_false (is_column_name name) (not (contains name reserved_user_fields)))

-- A column of strings cannot have the default null, nor can one of numbers, although the message of
-- the refused value says that it may be null.
pub null_default_refused :
    (name : Text)
    → (is_column_def (record { name = name; type = string_column; default_value = some null })
        ≡ false)
      × (is_column_def (record { name = name; type = number_column; default_value = some null })
          ≡ false)
unfolding is_column_def
null_default_refused name =
    let a = is_column_name name in
    let b = not (contains name reserved_user_fields) in (and_false a b, and_false a b)

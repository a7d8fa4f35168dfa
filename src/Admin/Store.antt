-- ===== src/Admin/Store.antt =====
-- The users store: `UserStore`, src/admin/userStore.ts. The queue of writes is left out.
use msrouter.Prelude.{
  Option, none, some, List, [], ◌∷◌, ◌++◌, map, ◌==◌, text_eq, if◌then◌else◌, some_of, Text, text,
}
use msrouter.Errors.{DomainError, conflict_error, not_found_error}
use msrouter.Json.{Json, null, string, Fields, end, field, get_field, set_field}
use msrouter.Admin.Schema.{ColumnDef, string_of}
use msrouter.Admin.File.{UsersDoc}

abbrev or_empty : Option Text → Text
or_empty none = []
or_empty (some s) = s

-- `u.username`, which the schema makes a text
abbrev pub username_of : Fields → Text
username_of u = or_empty (string_of (get_field (text "username") u))

abbrev pub find_user : Text → List Fields → Option Fields
find_user username [] = none
find_user username (u ∷ us) =
    let later = find_user username us in if username_of u == username then some u else later

-- the user that `find` returns, changed in place
abbrev pub change_user : Text → (Fields → Fields) → List Fields → List Fields
change_user username change [] = []
change_user username change (u ∷ us) =
    let later = change_user username change us in
    if username_of u == username then change u ∷ us else u ∷ later

pub data Changed : Type 0 where
  done : UsersDoc → Changed
  refused : DomainError → Changed

-- `findOrThrow` and what is done to the user
abbrev if_found : Text → Option Fields → UsersDoc → Changed
if_found username none d = refused (not_found_error (text "user '" ++ (username ++ text "'")))
if_found username (some u) d = done d

-- `toPublicUser`
abbrev pub to_public_user : Fields → Fields
to_public_user end = end
to_public_user (field k v fs) =
    let rest = to_public_user fs in if k == text "passwordHash" then rest else field k v rest

unfoldable pub list_public : UsersDoc → List Fields
list_public d = map to_public_user d.users

abbrev if_new : Text → Option Fields → UsersDoc → Changed
if_new username none d = done d
if_new username (some u) d =
    refused (conflict_error (text "user '" ++ (username ++ text "' already exists")))

unfoldable pub add_user : Fields → UsersDoc → Changed
add_user user d =
    if_new (username_of user) (find_user (username_of user) d.users)
      (record d { users = d.users ++ user ∷ [] })

unfoldable pub change_found : Text → (Fields → Fields) → UsersDoc → Changed
change_found username change d =
    if_found username (find_user username d.users)
      (record d { users = change_user username change d.users })

abbrev set_hash : Text → Fields → Fields
set_hash hash u = set_field (text "passwordHash") (string hash) u

unfoldable pub set_password : Text → Text → UsersDoc → Changed
unfolding change_found
set_password username hash d = change_found username (set_hash hash) d

abbrev set_if : Text → Option Text → Fields → Fields
set_if k none u = u
set_if k (some s) u = set_field k (string s) u

abbrev pub set_profile : Option Text → Option Text → Fields → Fields
set_profile email display_name u =
    set_if (text "displayName") display_name (set_if (text "email") email u)

unfoldable pub update_profile : Text → Option Text → Option Text → UsersDoc → Changed
unfolding change_found
update_profile username email display_name d =
    change_found username (set_profile email display_name) d

abbrev backfill : Option Json → Json
backfill none = null
backfill (some v) = v

unfoldable pub add_column : ColumnDef → UsersDoc → Changed
add_column def d =
    if some_of (λ c. c.name == def.name) d.columns
    then refused (conflict_error (text "column '" ++ (def.name ++ text "' already exists")))
    else done (record {
      columns = d.columns ++ def ∷ [];
      users = map (set_field def.name (backfill def.default_value)) d.users;
    })

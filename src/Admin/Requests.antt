-- ===== src/Admin/Requests.antt =====
-- What the admin routes read of a request and put into a reply: the request schemas of
-- src/shared/schema.ts, and parts of src/admin/handlers.ts.
use msrouter.Prelude.{
  ℕ, Bool, true, false, Option, none, some, [], ◌++◌, text_eq, if◌then◌else◌, Text, text, to_lower,
}
use msrouter.Errors.{DomainError, invalid}
use msrouter.Json.{Json, string, array, object, Fields, end, field, get_field}
use msrouter.Admin.Schema.{string_of, role_of, UserRole, viewer}
use msrouter.Admin.File.{UsersDoc, columns_items, users_items}
use msrouter.Admin.Store.{list_public, to_public_user}
use msrouter.Admin.Session.{Request, Sent}

abbrev pub fields_of : Json → Fields
fields_of (object fs) = fs
fields_of _ = end

abbrev pub invalid_body : DomainError
invalid_body = invalid (text "invalid request body") none

abbrev that : (Text → Bool) → Option Text → Option Text
that p none = none
that p (some s) = if p s then some s else none

-- a required text of a request
abbrev pub read_text : (Text → Bool) → Text → Json → Option Text
read_text p k body = that p (string_of (get_field k (fields_of body)))

-- an optional one: `none` where it is there and does not fit
abbrev optional_text : (Text → Bool) → Option Json → Option (Option Text)
optional_text p none = some none
optional_text p (some (string s)) = if p s then some (some s) else none
optional_text p (some v) = none

abbrev pub read_optional : (Text → Bool) → Text → Json → Option (Option Text)
read_optional p k body = optional_text p (get_field k (fields_of body))

-- `role`, a viewer's by default
abbrev pub role_or_viewer : Option Json → Option UserRole
role_or_viewer none = some viewer
role_or_viewer (some v) = role_of (some v)

-- `refine`: one of the two is there
abbrev pub is_patch : Option Text → Option Text → Bool
is_patch none none = false
is_patch _ _ = true

-- the rate limit's bucket
abbrev address : Option Text → Text
address none = text "unknown"
address (some ip) = ip

abbrev pub login_key : Request → Text → Text
login_key req username = address req.remote_address ++ (text ":" ++ to_lower username)

abbrev or_text : Option Text → Text → Text
or_text none s = s
or_text (some t) s = t

-- `user ? user.passwordHash : await dummyHash()`
abbrev pub hash_or : Text → Option Fields → Text
hash_or dummy none = dummy
hash_or dummy (some user) = or_text (string_of (get_field (text "passwordHash") user)) []

abbrev pub user_json : Fields → Json
user_json user = object (field (text "user") (object (to_public_user user)) end)

abbrev pub table_json : UsersDoc → Json
table_json d = object (
    field (text "columns") (array (columns_items d.columns))
      (field (text "users") (array (users_items (list_public d))) end))

abbrev pub reply : ℕ → Json → Sent
reply status body = record { status = status; body = body }

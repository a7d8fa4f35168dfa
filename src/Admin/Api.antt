-- ===== src/Admin/Api.antt =====
-- The routes of the admin server that read or change the store: src/admin/handlers.ts, and
-- what the server makes of what they throw, src/admin/server.ts.
use msrouter.Prelude.{
  ℕ, Bool, true, not, Option, none, some, List, [], ◌∷◌, ◌++◌, map, text_eq, Text, text,
}
use msrouter.Errors.{
  to_error_body, DomainError, invalid, unauthorized_error, forbidden_error, not_found_error,
  rate_limited_error,
}
use msrouter.Json.{Json, bool, string, object, Fields, end, field, get_field, truthy?}
use msrouter.Admin.RateLimit.{allow}
use msrouter.Admin.Schema.{is_between, is_username, role_text, UserRole, parse_column}
use msrouter.Admin.File.{UsersDoc}
use msrouter.Admin.Store.{
  username_of, find_user, add_user, set_password, update_profile, add_column, list_public,
  to_public_user,
}
use msrouter.Admin.Session.{
  Result, err, AdminState, Backend, Request, Sent, Handler, pure, throw_if, or_throw, gets, change,
  ◌>>=◌, ◌>>◌, ok, require_auth, require_admin, persist,
}
use msrouter.Admin.Requests.{
  fields_of, invalid_body, read_text, read_optional, role_or_viewer, is_patch, login_key, hash_or,
  user_json, table_json, reply,
}

module _ (u : Backend) (max_attempts window_ms : ℕ) where
  open u use {
    World, now, now_iso, sign_token, hash_password, verify_password, dummy_hash, run_query, formats,
  }

  -- `deps.rateLimiter.allow(…)`
  unfoldable pub limit_login : Text → Handler World Bool
  limit_login key s =
      let (allowed, buckets) = allow max_attempts window_ms key (now s.world) s.buckets in
      (ok allowed, record s { buckets = buckets })

  abbrev pub no_user : Text → DomainError
  no_user sub = not_found_error (text "user '" ++ (sub ++ text "'"))

  unfoldable pub current_user : Text → Handler World Fields
  current_user sub s = or_throw (find_user sub s.doc.users) (no_user sub) s

  unfoldable pub new_hash : Text → Handler World Text
  new_hash password s =
      let (hash, w) = hash_password password s.world in (ok hash, record s { world = w })

  abbrev pub login_json : Fields → Text × Text → Json
  login_json user t = object (
      field (text "token") (string t.0) (
        field (text "tokenType") (string (text "Bearer")) (
          field (text "expiresAt") (string t.1)
            (field (text "user") (object (to_public_user user)) end))))

  abbrev pub signed : Fields → World → Text × Text
  signed user w = sign_token (username_of user) (get_field (text "role") user) w

  -- what follows the check of the password
  unfoldable pub admit : Option Fields → Handler World Sent
  admit found = do
    user ← or_throw found (unauthorized_error (text "invalid credentials"))
    throw_if (not (truthy? (get_field (text "active") user)))
        (forbidden_error (text "account is disabled"))
    token ← gets (λ s. signed user s.world)
    pure (reply 200 (login_json user token))

  unfoldable pub log_in : Text → Text → Text → Handler World Sent
  unfolding limit_login admit
  log_in key username password = do
    allowed ← limit_login key
    throw_if (not allowed)
        (rate_limited_error (text "too many login attempts, try again in a minute"))
    found ← gets (λ s. find_user username s.doc.users)
    throw_if (not (verify_password password (hash_or dummy_hash found)))
        (unauthorized_error (text "invalid credentials"))
    admit found

  -- POST /api/v1/auth/login
  unfoldable pub login : Request → Handler World Sent
  unfolding log_in
  login req = do
    username ← or_throw (read_text (is_between 1 64) (text "username") req.body) invalid_body
    password ← or_throw (read_text (is_between 1 128) (text "password") req.body) invalid_body
    log_in (login_key req username) username password

  -- GET /api/v1/auth/me
  unfoldable pub me : Request → Handler World Sent
  unfolding current_user
  me req = do
    auth ← require_auth u req
    user ← current_user auth.sub
    pure (reply 200 (user_json user))

  -- POST /api/v1/auth/password
  unfoldable pub change_password : Request → Handler World Sent
  unfolding current_user new_hash
  change_password req = do
    auth ← require_auth u req
    current ← or_throw (read_text (is_between 1 128) (text "currentPassword") req.body) invalid_body
    new ← or_throw (read_text (is_between 8 128) (text "newPassword") req.body) invalid_body
    user ← current_user auth.sub
    throw_if (not (verify_password current (hash_or [] (some user))))
        (unauthorized_error (text "current password is incorrect"))
    hash ← new_hash new
    change (set_password auth.sub hash)
    persist u
    changed ← current_user auth.sub
    pure (reply 200 (user_json changed))

  -- GET /api/v1/users
  unfoldable pub list_users : Request → Handler World Sent
  list_users req = do
    auth ← require_auth u req
    table ← gets (λ s. table_json s.doc)
    pure (reply 200 table)

  abbrev pub new_user : Text → UserRole → Text → Text → Text → Text → Fields
  new_user username role email display_name hash created =
      field (text "username") (string username) (
        field (text "role") (string (role_text role)) (
          field (text "email") (string email) (
            field (text "displayName") (string display_name) (
              field (text "passwordHash") (string hash) (
                field (text "active") (bool true)
                  (field (text "createdAt") (string created) end))))))

  -- POST /api/v1/users
  unfoldable pub create_user : Request → Handler World Sent
  unfolding new_hash
  create_user req = do
    auth ← require_admin u req
    username ← or_throw (read_text is_username (text "username") req.body) invalid_body
    password ← or_throw (read_text (is_between 8 128) (text "password") req.body) invalid_body
    role ← or_throw (role_or_viewer (get_field (text "role") (fields_of req.body))) invalid_body
    email ← or_throw (read_text formats.is_email (text "email") req.body) invalid_body
    display_name ← or_throw (read_text (is_between 1 64) (text "displayName") req.body) invalid_body
    hash ← new_hash password
    created ← gets (λ s. now_iso s.world)
    let user = new_user username role email display_name hash created
    change (add_user user)
    persist u
    pure (reply 201 (user_json user))

  -- POST /api/v1/users/columns
  unfoldable pub create_column : Request → Handler World Sent
  create_column req = do
    auth ← require_admin u req
    def ← or_throw (parse_column req.body) invalid_body
    change (add_column def)
    persist u
    table ← gets (λ s. table_json s.doc)
    pure (reply 201 table)

  abbrev known_columns : UsersDoc → List Text
  known_columns d =
      text "username"
      ∷ text "role"
      ∷ text "email"
      ∷ text "displayName"
      ∷ text "active"
      ∷ text "createdAt"
      ∷ map (λ c. c.name) d.columns

  -- POST /api/v1/query
  unfoldable pub query : Request → Handler World Sent
  query req = do
    auth ← require_admin u req
    sql ← or_throw (read_text (is_between 1 4000) (text "sql") req.body) invalid_body
    rows ← gets (λ s. run_query sql (list_public s.doc) (known_columns s.doc))
    result ← or_throw rows (invalid (text "SQL execution failed") none)
    pure (reply 200 result)

  -- PATCH /api/v1/users/me
  unfoldable pub patch_me : Request → Handler World Sent
  unfolding current_user
  patch_me req = do
    auth ← require_auth u req
    email ← or_throw (read_optional formats.is_email (text "email") req.body) invalid_body
    display_name ←
        or_throw (read_optional (is_between 1 64) (text "displayName") req.body) invalid_body
    throw_if (not (is_patch email display_name)) invalid_body
    change (update_profile auth.sub email display_name)
    persist u
    user ← current_user auth.sub
    pure (reply 200 (user_json user))

-- what the server sends for what a handler returns or throws
abbrev pub sent_of : Result Sent → Text → Sent
sent_of (ok sent) id = sent
sent_of (err e) id = let (status, body) = to_error_body e id in reply status body

unfoldable pub respond_to :
    {W : Type 0} → (Request → Handler W Sent) → Request → AdminState W → Sent × AdminState W
unfolding to_error_body
respond_to handler req s = let (r, t) = handler req s in (sent_of r req.id, t)

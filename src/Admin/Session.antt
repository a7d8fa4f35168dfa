-- ===== src/Admin/Session.antt =====
-- What a handler of src/admin/handlers.ts runs on: the store in memory, the buckets of the login
-- limiter and the world, which holds the clock, the users file and the source of salts. Tokens,
-- password hashes, dates and the SQL engine are parameters; `claims_of` is the check of src/admin/token.ts.
use msrouter.Prelude.{
  ℕ, Bool, true, false, not, ◌&&◌, Option, none, some, List, [], text_eq, if◌then◌else◌,
  starts_with, trim, drop, Text, text, is_set, Map,
}
use msrouter.Errors.{DomainError, Thrown, domain, other, unauthorized_error, forbidden_error}
use msrouter.Json.{Json, number, Fields, get_field}
use msrouter.Admin.RateLimit.{Bucket}
use msrouter.Admin.Schema.{Formats, UserRole, admin, viewer, role_of, string_of}
use msrouter.Admin.File.{UsersDoc, doc_json}
use msrouter.Admin.Store.{Changed, done, refused}

pub record Backend : Type 1 where
  pub World : Type 0
  pub now : World → ℕ
  pub now_iso : World → Text
  -- `jwt.verify`, the payload of a token that it takes
  pub jwt_verify : Text → World → Option Fields
  -- `signToken`: the token, and when it expires
  pub sign_token : Text → Option Json → World → Text × Text
  pub hash_password : Text → World → Text × World
  -- the password first
  pub verify_password : Text → Text → Bool
  pub dummy_hash : Text
  -- `writeAtomically`, false where it throws
  pub write_file : Json → World → Bool × World
  -- `runUsersQuery`, none where it throws its `ValidationError`
  pub run_query : Text → List Fields → List Text → Option Json
  pub formats : Formats

pub record Request : Type 0 where
  pub authorization : Option Text
  pub remote_address : Option Text
  pub body : Json
  pub id : Text

pub record AuthContext : Type 0 where
  pub sub : Text
  pub role : UserRole

pub record Sent : Type 0 where
  pub status : ℕ
  pub body : Json

pub record AdminState (W : Type 0) : Type 0 where
  pub doc : UsersDoc
  pub buckets : Map Text Bucket
  pub world : W

pub data Result (A : Type 0) : Type 0 where
  ok : A → Result A
  err : Thrown → Result A

abbrev pub Handler : Type 0 → Type 0 → Type 0
Handler W A = AdminState W → Result A × AdminState W

module _ {W A : Type 0} where
  abbrev pub throw : DomainError → Handler W A
  throw e s = (err (domain e), s)

  abbrev pub pure : A → Handler W A
  pure a s = (ok a, s)

  abbrev pub or_throw : Option A → DomainError → Handler W A
  or_throw none e = throw e
  or_throw (some a) e = pure a

  abbrev pub gets : (AdminState W → A) → Handler W A
  gets f s = (ok (f s), s)

abbrev pub and_then :
    {W A B : Type 0} → Result A → AdminState W → (A → Handler W B) → Result B × AdminState W
and_then (ok a) s f = f a s
and_then (err e) s f = (err e, s)

infixl 5 ◌>>=◌ ◌>>◌
abbrev pub ◌>>=◌ : {W A B : Type 0} → Handler W A → (A → Handler W B) → Handler W B
◌>>=◌ m f s = let r = m s in and_then r.0 r.1 f

abbrev pub ◌>>◌ : {W B : Type 0} → Handler W (Unit {0}) → Handler W B → Handler W B
m >> k = m >>= λ _. k

module _ {W : Type 0} where
  abbrev pub throw_if : Bool → DomainError → Handler W (Unit {0})
  throw_if c e s = (if c then err (domain e) else ok tt, s)

  abbrev pub keep_doc : Changed → AdminState W → Result (Unit {0}) × AdminState W
  keep_doc (done d) s = (ok tt, record s { doc = d })
  keep_doc (refused e) s = (err (domain e), s)

  -- a method of the store that changes it or throws
  abbrev pub change : (UsersDoc → Changed) → Handler W (Unit {0})
  change f s = keep_doc (f s.doc) s

abbrev is_number? : Option Json → Bool
is_number? (some (number t)) = true
is_number? _ = false

abbrev claims_if : Option Text → Option UserRole → Bool → Option AuthContext
claims_if (some sub) (some role) true = some (record { sub = sub; role = role })
claims_if _ _ _ = none

-- `verifyToken`, over the payload
unfoldable pub claims_of : Option Fields → Option AuthContext
claims_of none = none
claims_of (some p) =
    claims_if (string_of (get_field (text "sub") p)) (role_of (get_field (text "role") p))
      (is_number? (get_field (text "iat") p) && is_number? (get_field (text "exp") p))

-- the token after `Bearer `, the empty text where there is none
unfoldable pub bearer : Option Text → Text
bearer none = []
bearer (some raw) = if starts_with (text "Bearer ") raw then trim (drop 7 raw) else []

abbrev pub is_admin : UserRole → Bool
is_admin admin = true
is_admin viewer = false

module _ (u : Backend) where
  open u use {World, jwt_verify, write_file}

  -- the claims of a request's token
  unfoldable pub authenticate : Request → World → Option AuthContext
  unfolding bearer claims_of
  authenticate req w =
      let token = bearer req.authorization in
      if is_set token then claims_of (jwt_verify token w) else none

  unfoldable pub require_auth : Request → Handler World AuthContext
  unfolding authenticate
  require_auth req s =
      or_throw (authenticate req s.world)
        (unauthorized_error (text "missing or invalid bearer token")) s

  unfoldable pub require_admin : Request → Handler World AuthContext
  unfolding require_auth
  require_admin req = do
    auth ← require_auth req
    throw_if (not (is_admin auth.role)) (forbidden_error (text "admin role required"))
    pure auth

  abbrev pub saved : Bool → Result (Unit {0})
  saved true = ok tt
  saved false = err (other (text "write failed"))

  -- `save`: a failed write leaves the change in memory
  unfoldable pub persist : Handler World (Unit {0})
  persist s =
      let (written, w) = write_file (doc_json s.doc) s.world in
      (saved written, record s { world = w })

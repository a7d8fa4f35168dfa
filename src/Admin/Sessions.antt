-- ===== src/Admin/Sessions.antt =====
-- Tests of the users store and of the routes, src/admin/userStore.ts, src/admin/handlers.ts. A token is
-- taken if it is "root", and a password fits the hash that it is.
use msrouter.Prelude.{
  ℕ, zero, suc, ◌≡◌, refl, inl, inr, true, false, none, some, List, [], ◌∷◌, ◌==◌, text_eq,
  if◌then◌else◌, Text, text, is_set,
}
use msrouter.Routing.Distinct.{Distinct}
use msrouter.Errors.{DomainError, domain}
use msrouter.Json.{null, bool, number, string, object, Fields, end, field}
use msrouter.Admin.Schema.{string_column, ColumnDef, Formats}
use msrouter.Admin.File.{
  UsersDoc, doc_json, parse_users_file, is_users_file, parse_users_file-doc_json,
}
use msrouter.Admin.Store.{done, add_user, list_public, to_public_user}
use msrouter.Admin.Names.{names, added, stay, step, Steps-Distinct, add_user-unloadable}
use msrouter.Admin.Session.{
  Backend, Request, AuthContext, Sent, AdminState, ok, err, is_admin, authenticate, bearer,
  claims_of, require_auth, require_admin,
}
use msrouter.Admin.Requests.{reply, login_key}
use msrouter.Admin.Api.{login_json, signed, limit_login, create_user, create_column, query}
use msrouter.Admin.Secrets.{admins_only, query-public}

abbrev formats : Formats
formats = record { is_email = λ s. is_set s; is_datetime = λ s. is_set s }

abbrev user : Text → Text → Fields
user name hash = field (text "username") (string name) (
    field (text "passwordHash") (string hash) (
      field (text "role") (string (text "viewer")) (
        field (text "email") (string (text "e")) (
          field (text "displayName") (string (text "d")) (
            field (text "active") (bool true)
              (field (text "createdAt") (string (text "t")) end))))))

abbrev team : ColumnDef
team = record { name = text "team"; type = string_column; default_value = none }

abbrev one_user : UsersDoc
one_user = record { columns = []; users = user (text "ann") (text "h") ∷ [] }

abbrev two_users : UsersDoc
two_users = record {
  columns = [];
  users = user (text "ann") (text "h") ∷ user (text "bob") (text "i") ∷ [];
}

bob_added : add_user (user (text "bob") (text "i")) one_user ≡ done two_users
unfolding add_user
bob_added = refl

Steps-Distinct_example : Distinct (names two_users)
Steps-Distinct_example =
    Steps-Distinct (step (added (user (text "bob") (text "i")) bob_added) stay) (refl, tt)

parse_users_file-doc_json_example :
    parse_users_file formats (doc_json two_users)
    ≡ (if is_users_file formats two_users then some two_users else none)
parse_users_file-doc_json_example = parse_users_file-doc_json formats two_users

abbrev copies : ℕ → List Fields
copies zero = []
copies (suc n) = user (text "ann") (text "h") ∷ copies n

abbrev full_doc : UsersDoc
full_doc = record { columns = []; users = copies 1000 }

add_user-unloadable_example :
    (e : UsersDoc) × (add_user (user (text "bob") (text "i")) full_doc ≡ done e)
    × (parse_users_file formats (doc_json e) ≡ none)
add_user-unloadable_example =
    add_user-unloadable formats (user (text "bob") (text "i")) full_doc refl refl

abbrev backend : Backend
backend = record {
  World = ℕ;
  now = λ w. w;
  now_iso = λ w. text "t";
  jwt_verify = λ t w. none;
  sign_token = λ name role w. (name, text "x");
  hash_password = λ p w. (p, w);
  verify_password = λ p h. p == h;
  dummy_hash = text "dummy";
  write_file = λ d w. (true, w);
  run_query = λ sql rows columns. some null;
  formats = formats;
}

abbrev state : UsersDoc → AdminState ℕ
state d = record { doc = d; buckets = []; world = 7 }

abbrev login_request : Request
login_request = record {
  authorization = none;
  remote_address = none;
  body = object (
      field (text "username") (string (text "ann"))
        (field (text "password") (string (text "h")) end));
  id = text "r";
}

abbrev ann : Fields
ann = user (text "ann") (text "h")

abbrev ann_sent : Sent
ann_sent = reply 200 (login_json backend 2 100 ann (signed backend 2 100 ann 7))

abbrev after_login : AdminState ℕ
after_login = (limit_login backend 2 100 (login_key login_request (text "ann")) (state one_user)).1

no_claims :
    (a : AuthContext) → authenticate backend login_request 7 ≡ some a → is_admin a.role ≡ false
unfolding authenticate bearer
no_claims a h = cc

admins_only_example :
    (e : DomainError) × (create_user backend 2 100 login_request (state one_user)
      ≡ (err (domain e), state one_user))
    × (create_column backend 2 100 login_request (state one_user)
        ≡ (err (domain e), state one_user))
    × (query backend 2 100 login_request (state one_user) ≡ (err (domain e), state one_user))
admins_only_example = admins_only backend 2 100 login_request (state one_user) no_claims

abbrev other_hash : UsersDoc
other_hash = record { columns = []; users = user (text "ann") (text "z") ∷ [] }

-- the claims of the token "root"
abbrev root_claims : Fields
root_claims = field (text "sub") (string (text "root")) (
    field (text "role") (string (text "admin"))
      (field (text "iat") (number (text "1")) (field (text "exp") (number (text "9")) end)))

abbrev first_row : List Fields → Fields
first_row [] = end
first_row (row ∷ rows) = row

-- an engine that returns the first row that it is given
abbrev rooted : Backend
rooted = record backend {
  jwt_verify = λ t w. if t == text "root" then some root_claims else none;
  run_query = λ sql rows columns. some (object (first_row rows));
}

abbrev query_request : Request
query_request = record {
  authorization = some (text "Bearer root");
  remote_address = none;
  body = object (field (text "sql") (string (text "SELECT * FROM ?")) end);
  id = text "r";
}

-- the engine is reached
query-runs :
    (query rooted 2 100 query_request (state one_user)).0
    ≡ ok (reply 200 (object (to_public_user ann)))
unfolding query require_admin require_auth authenticate claims_of bearer list_public
query-runs = refl

query-public_example :
    (query rooted 2 100 query_request (state one_user)).0
    ≡ (query rooted 2 100 query_request (state other_hash)).0
query-public_example =
    query-public rooted 2 100 query_request (state one_user) (state other_hash) refl refl (
      (
        (
          refl,
          inr refl,
          (
            refl,
            inl refl,
            (
              refl,
              inr refl,
              (refl, inr refl, (refl, inr refl, (refl, inr refl, (refl, inr refl, tt)))),
            ),
          ),
        ),
        tt,
      ))

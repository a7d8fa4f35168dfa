-- ===== src/Admin/Secrets.antt =====
-- Who may do what with the users: src/admin/handlers.ts.
use msrouter.Prelude.{
  ℕ, ◌≡◌, beq-false, text_beq_iff, refl, ap, ◌⊎◌, List, ◌∷◌, map, sym, ◌∙◌, inl, inr, true, false,
  Option, none, some, [], arith, ◌==◌, text_eq, Text, text, if◌then◌else◌, Bool-cases, Option-cases,
}
use mathlib.Core.Bool.{true≢false}
use msrouter.Errors.{DomainError, domain}
use msrouter.Json.{Json, Fields, end, field, get_field, truthy?}
use msrouter.Admin.Schema.{is_between}
use msrouter.Admin.Store.{to_public_user, list_public}
use msrouter.Admin.Session.{
  Backend, Request, AuthContext, Sent, AdminState, Result, ok, err, ◌>>=◌, pure, or_throw, is_admin,
  authenticate, require_auth, require_admin,
}
use msrouter.Admin.Requests.{read_text, reply}
use msrouter.Admin.Api.{login_json, signed, create_user, create_column, query}

abbrev result? : {A : Type 0} → Result A → Option A
result? (ok a) = some a
result? (err e) = none

-- A reply does not depend on the state that it leaves.
answered :
    {W : Type 0} (o : Option Json) (e : DomainError) (s t : AdminState W)
    → ((or_throw o e >>= λ r. pure (reply 200 r)) s).0
      ≡ ((or_throw o e >>= λ r. pure (reply 200 r)) t).0
answered none e s t = refl
answered (some r) e s t = refl

-- A user as the clients see it, without the hash of the password and otherwise as it is.
pub get_field-to_public_user :
    (k : Text) (user : Fields)
    → get_field k (to_public_user user)
      ≡ (if k == text "passwordHash" then none else get_field k user)
get_field-to_public_user k end = ground arith
get_field-to_public_user k (field j v fs) = elim (Bool-cases (j == text "passwordHash")) [
  | inl hash ↦ elim (Bool-cases (k == text "passwordHash")) [
    | inl same ↦ rw (hash, get_field-to_public_user k fs, same) refl
    | inr apart ↦
        let distinct : (j == k) ≡ false =
          beq-false j k
            (λ e. true≢false (sym hash ∙ ap (λ x. x == text "passwordHash") e ∙ apart)) in
        rw (hash, get_field-to_public_user k fs, apart, distinct) refl
  ]
  | inr other ↦ elim (Bool-cases (j == k)) [
    | inl here ↦
        let open_field : (k == text "passwordHash") ≡ false =
          ap (λ x. x == text "passwordHash") (sym ((text_beq_iff j k).0 here)) ∙ other in
        rw (other, here, open_field) refl
    | inr later ↦ rw (other, later) (get_field-to_public_user k fs)
  ]
]

-- Two users agree in every field but the hash of the password.
abbrev pub Agree : Fields → Fields → Type 0
Agree end end = Unit
Agree (field k v fs) (field j w gs) = (k ≡ j) × ((k ≡ text "passwordHash") ⊎ (v ≡ w)) × Agree fs gs
Agree _ _ = ⊥

-- Two lists of users agree so, one by one.
abbrev pub AgreeAll : List Fields → List Fields → Type 0
AgreeAll [] [] = Unit
AgreeAll (x ∷ xs) (y ∷ ys) = Agree x y × AgreeAll xs ys
AgreeAll _ _ = ⊥

to_public_user-Agree : (x y : Fields) → Agree x y → to_public_user x ≡ to_public_user y
to_public_user-Agree end end h = refl
to_public_user-Agree end (field j w gs) h = absurd h
to_public_user-Agree (field k v fs) end h = absurd h
to_public_user-Agree (field k v fs) (field j w gs) (same, inl hash, rest) =
    rw (sym same, hash) (to_public_user-Agree fs gs rest)
to_public_user-Agree (field k v fs) (field j w gs) (same, inr equal, rest) =
    rw (sym same, equal, to_public_user-Agree fs gs rest) refl

public-AgreeAll :
    (xs ys : List Fields) → AgreeAll xs ys → map to_public_user xs ≡ map to_public_user ys
public-AgreeAll [] [] h = refl
public-AgreeAll [] (y ∷ ys) h = absurd h
public-AgreeAll (x ∷ xs) [] h = absurd h
public-AgreeAll (x ∷ xs) (y ∷ ys) (here, rest) =
    rw (to_public_user-Agree x y here, public-AgreeAll xs ys rest) refl

module _ (u : Backend) (max_attempts window_ms : ℕ) where
  open u use {World, now, verify_password}

  -- What a login that was admitted says of the user.
  abbrev pub Admitted : Fields → AdminState World → Sent → AdminState World → Type 0
  Admitted user s sent t =
      (truthy? (get_field (text "active") user) ≡ true)
      × (sent
          ≡ reply 200 (
              login_json u max_attempts window_ms user
                (signed u max_attempts window_ms user s.world)))
      × (t ≡ s)

  -- A request without an administrator's token creates no user and no column and runs no query: it is
  -- refused, and the state stays as it was.
  pub admins_only :
      (req : Request) (s : AdminState World)
      → ((a : AuthContext) → authenticate u req s.world ≡ some a → is_admin a.role ≡ false)
      → (e : DomainError) × (create_user u max_attempts window_ms req s ≡ (err (domain e), s))
        × (create_column u max_attempts window_ms req s ≡ (err (domain e), s))
        × (query u max_attempts window_ms req s ≡ (err (domain e), s))
  unfolding create_user create_column query require_admin require_auth
  admins_only req s other = elim (Option-cases (authenticate u req s.world)) [
    | inl stranger ↦ rw stranger (_, refl, refl, refl)
    | inr (a, known) ↦ rw (known, other a known) (_, refl, refl, refl)
  ]

  query-list_public :
      (req : Request) (s t : AdminState World)
      → s.world ≡ t.world
      → list_public s.doc ≡ list_public t.doc
      → s.doc.columns ≡ t.doc.columns
      → (query u max_attempts window_ms req s).0 ≡ (query u max_attempts window_ms req t).0
  unfolding query require_admin require_auth
  query-list_public req s t same_world same_users same_columns =
      elim (Option-cases (authenticate u req t.world)) [
        | inl stranger ↦ rw (same_world, stranger) refl
        | inr (a, known) ↦ elim (Bool-cases (is_admin a.role)) [
          | inr other ↦ rw (same_world, known, other) refl
          | inl admin ↦ elim (Option-cases (read_text (is_between 1 4000) (text "sql") req.body)) [
            | inl bad ↦ rw (same_world, known, admin, bad) refl
            | inr (sql, good) ↦
                rw (same_world, known, admin, good, same_users, same_columns) (answered _ _ _ t)
          ]
        ]
      ]

  -- Between two states with the same world and columns, whose users agree one by one in every field but
  -- the hash of the password, no query is answered differently: no hash comes through the SQL engine.
  pub query-public :
      (req : Request) (s t : AdminState World)
      → s.world ≡ t.world
      → s.doc.columns ≡ t.doc.columns
      → AgreeAll s.doc.users t.doc.users
      → (query u max_attempts window_ms req s).0 ≡ (query u max_attempts window_ms req t).0
  unfolding list_public
  query-public req s t same_world same_columns agree =
      query-list_public req s t same_world (public-AgreeAll s.doc.users t.doc.users agree)
        same_columns

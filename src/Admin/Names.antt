-- ===== src/Admin/Names.antt =====
-- The user names of the store, src/admin/userStore.ts, through everything that changes it.
use msrouter.Prelude.{
  ◌≡◌, refl, every, beq-false, ap, sym, ◌∙◌, inl, inr, true, false, Option, none, some, List, [],
  ◌∷◌, ◌++◌, map, arith, ◌==◌, text_eq, leb, length, length-append, some_of, contains,
  contains-append, Text, text, Bool-cases, Option-cases, text_beq_iff, subst,
}
use mathlib.Core.Path.{ap₂}
use mathlib.Core.Bool.{true≢false}
use msrouter.Routing.Distinct.{Distinct}
use msrouter.Json.{Json, string, Fields, set_field, get_field-set_field}
use msrouter.Admin.Schema.{ColumnDef, is_column_def, and_false, Formats}
use msrouter.Admin.File.{
  UsersDoc, doc_json, parse_users_file, is_users_file, parse_users_file-doc_json,
}
use msrouter.Admin.Store.{
  username_of, find_user, change_user, Changed, done, refused, add_user, change_found, set_password,
  update_profile, add_column, set_profile,
}

abbrev pub names : UsersDoc → List Text
names d = map username_of d.users

-- One change of the store, as the handlers make them: a column has passed its schema.
pub data Step : UsersDoc → UsersDoc → Type 0 where
  added : {d e : UsersDoc} (user : Fields) → add_user user d ≡ done e → Step d e
  password_set : {d e : UsersDoc} (name hash : Text) → set_password name hash d ≡ done e → Step d e
  profile_updated :
      {d e : UsersDoc} (name : Text) (email display_name : Option Text)
      → update_profile name email display_name d ≡ done e
      → Step d e
  column_added :
      {d e : UsersDoc} (def : ColumnDef)
      → is_column_def def ≡ true
      → add_column def d ≡ done e
      → Step d e

pub data Steps : UsersDoc → UsersDoc → Type 0 where
  stay : {d : UsersDoc} → Steps d d
  step : {d e f : UsersDoc} → Step d e → Steps e f → Steps d f

username_of-set_field :
    (k : Text) (v : Json) (u : Fields)
    → (k == text "username") ≡ false
    → username_of (set_field k v u) ≡ username_of u
username_of-set_field k v u other = rw (get_field-set_field (text "username") k v u, other) refl

find_user-contains :
    (name : Text) (us : List Fields)
    → find_user name us ≡ none
    → contains name (map username_of us) ≡ false
find_user-contains name [] h = refl
find_user-contains name (u ∷ us) h = ground (arith, find_user-contains name us)

Distinct-append :
    (xs : List Text) (x : Text) → Distinct xs → contains x xs ≡ false → Distinct (xs ++ x ∷ [])
Distinct-append [] x d h = (refl, tt)
Distinct-append (y ∷ ys) x d h = (
  ground (arith, contains-append y ys (x ∷ []), text_beq_iff x y, text_beq_iff y x, d.0),
  Distinct-append ys x d.1 (ground arith),
)

column-not_username :
    (def : ColumnDef) → is_column_def def ≡ true → (def.name == text "username") ≡ false
unfolding is_column_def
column-not_username def fine =
    beq-false def.name (text "username") (λ e. true≢false (sym (rw e at fine)))

too_many :
    (f : Formats) (user : Fields) (d : UsersDoc)
    → length d.users ≡ 1000
    → is_users_file f (record d { users = d.users ++ user ∷ [] }) ≡ false
too_many f user d full =
    let longer : leb (length (d.users ++ user ∷ [])) 1000 ≡ false =
      ground (arith, length-append d.users (user ∷ []), full) in
    rw longer (and_false (leb (length d.columns) 50) (every is_column_def d.columns))

change_user-names :
    (name : Text) (change : Fields → Fields) (us : List Fields)
    → ((u : Fields) → username_of (change u) ≡ username_of u)
    → map username_of (change_user name change us) ≡ map username_of us
change_user-names name change [] keeps = refl
change_user-names name change (u ∷ us) keeps = elim (Bool-cases (username_of u == name)) [
  | inl here ↦ rw (here, keeps u) refl
  | inr later ↦ rw later (ap (◌∷◌ (username_of u)) (change_user-names name change us keeps))
]

names-append :
    (us : List Fields) (u : Fields)
    → map username_of (us ++ u ∷ []) ≡ map username_of us ++ username_of u ∷ []
names-append [] u = refl
names-append (v ∷ us) u = ap (◌∷◌ (username_of v)) (names-append us u)

map-names :
    (change : Fields → Fields) (us : List Fields)
    → ((u : Fields) → username_of (change u) ≡ username_of u)
    → map username_of (map change us) ≡ map username_of us
map-names change [] keeps = refl
map-names change (u ∷ us) keeps = ap₂ ◌∷◌ (keeps u) (map-names change us keeps)

abbrev doc_or : UsersDoc → Changed → UsersDoc
doc_or d (done e) = e
doc_or d (refused x) = d

add_user-names :
    (user : Fields) (d e : UsersDoc)
    → Distinct (names d)
    → add_user user d ≡ done e
    → Distinct (names e)
unfolding add_user
add_user-names user d e distinct h = elim (Option-cases (find_user (username_of user) d.users)) [
  | inr (u, there) ↦ subst (λ x. Distinct (names x)) (ap (doc_or d) (rw there at h)) distinct
  | inl new ↦
      let grown = ap names (ap (doc_or d) (rw new at h)) in
      let listed = names-append d.users user in
      subst Distinct (sym listed ∙ grown) (
        Distinct-append (names d) (username_of user) distinct
          (find_user-contains (username_of user) d.users new))
]

change_found-names :
    (name : Text) (change : Fields → Fields) (d e : UsersDoc)
    → ((u : Fields) → username_of (change u) ≡ username_of u)
    → change_found name change d ≡ done e
    → names d ≡ names e
unfolding change_found
change_found-names name change d e keeps h = elim (Option-cases (find_user name d.users)) [
  | inl gone ↦ ap names (ap (doc_or d) (rw gone at h))
  | inr (u, there) ↦
      sym (change_user-names name change d.users keeps) ∙ ap names (ap (doc_or d) (rw there at h))
]

add_column-names :
    (def : ColumnDef) (d e : UsersDoc)
    → is_column_def def ≡ true
    → add_column def d ≡ done e
    → names d ≡ names e
unfolding add_column
add_column-names def d e fine h = elim (Bool-cases (some_of (λ c. c.name == def.name) d.columns)) [
  | inl old ↦ ap names (ap (doc_or d) (rw old at h))
  | inr new ↦
      sym (
        map-names _ d.users
          (λ u. username_of-set_field def.name _ u (column-not_username def fine)))
      ∙ ap names (ap (doc_or d) (rw new at h))
]

set_profile-username :
    (email display_name : Option Text) (u : Fields)
    → username_of (set_profile email display_name u) ≡ username_of u
set_profile-username none none u = refl
set_profile-username (some s) none u = username_of-set_field (text "email") _ u refl
set_profile-username none (some t) u = username_of-set_field (text "displayName") _ u refl
set_profile-username (some s) (some t) u =
    let v = set_field (text "email") (string s) u in
    username_of-set_field (text "displayName") (string t) v refl
    ∙ username_of-set_field (text "email") (string s) u refl

Step-Distinct : (d e : UsersDoc) → Step d e → Distinct (names d) → Distinct (names e)
unfolding set_password update_profile
Step-Distinct d e (added user h) distinct = add_user-names user d e distinct h
Step-Distinct d e (password_set name hash h) distinct =
    subst Distinct
      (change_found-names name _ d e (λ u. username_of-set_field (text "passwordHash") _ u refl) h)
      distinct
Step-Distinct d e (profile_updated name email display_name h) distinct =
    subst Distinct (change_found-names name _ d e (set_profile-username email display_name) h)
      distinct
Step-Distinct d e (column_added def fine h) distinct =
    subst Distinct (add_column-names def d e fine h) distinct

-- However a store whose user names differ is changed, by users, passwords, profiles and columns that
-- pass their schema, its user names differ.
pub Steps-Distinct : {d e : UsersDoc} → Steps d e → Distinct (names d) → Distinct (names e)
Steps-Distinct stay distinct = distinct
Steps-Distinct (step one more) distinct = Steps-Distinct more (Step-Distinct _ _ one distinct)

-- A store of a thousand users takes one more, of a new name, and what it then saves is refused by the
-- schema of the next start.
pub add_user-unloadable :
    (f : Formats) (user : Fields) (d : UsersDoc)
    → length d.users ≡ 1000
    → find_user (username_of user) d.users ≡ none
    → (e : UsersDoc) × (add_user user d ≡ done e) × (parse_users_file f (doc_json e) ≡ none)
unfolding add_user
add_user-unloadable f user d full new =
    let e = record d { users = d.users ++ user ∷ [] } in
    (e, rw new refl, parse_users_file-doc_json f e ∙ rw (too_many f user d full) refl)

-- ===== src/Endpoint/Models.antt =====
-- Which loaded model LM Studio is asked for: `normalizeModelToken`, `resolveLmStudioModel` and
-- `extractModelIds`, src/providers/lmstudio.ts.
use msrouter.Prelude.{
  ℕ, ◌≡◌, beq_refl, inl, inr, refl, sym, Bool, true, false, not, ◌&&◌, ◌||◌, Option, none, some,
  List, [], ◌∷◌, arith, ◌==◌, nat_eq, text_eq, leb, if◌then◌else◌, keep, some_of, contains, every,
  Text, text, is_set, split, to_lower, starts_with, Bool-cases, Option-cases,
}
use mathlib.Core.Option.{some_inj}
use msrouter.Json.{Json, string, array, Items, nil, cons, prop}

abbrev is_digit : ℕ → Bool
is_digit c = leb b'0' c && leb c b'9'

abbrev is_lower : ℕ → Bool
is_lower c = leb b'a' c && leb c b'z'

-- `\w`
abbrev is_word : ℕ → Bool
is_word c = is_digit c || (is_lower c || (leb b'A' c && leb c b'Z' || c == b'_'))

abbrev or_last : Text → List Text → Text
or_last last [] = last
or_last last (s ∷ rest) = or_last s rest

-- `id.split('/').pop()`
abbrev base_name : Text → Text
base_name id = or_last id (split (text "/") id)

-- `s.replace(/\.gguf$/i, '')`
abbrev strip_gguf : Text → Text
strip_gguf [] = []
strip_gguf (c ∷ s) =
    let rest = strip_gguf s in if to_lower (c ∷ s) == text ".gguf" then [] else c ∷ rest

-- `q\d\w*$`, of a text in lower case
abbrev is_q_suffix : Text → Bool
is_q_suffix (q ∷ d ∷ rest) = q == b'q' && (is_digit d && every is_word rest)
is_q_suffix _ = false

abbrev is_iq_suffix : Text → Bool
is_iq_suffix [] = false
is_iq_suffix (c ∷ rest) = c == b'i' && is_q_suffix rest

abbrev is_quant : Text → Bool
is_quant s =
    is_q_suffix s
    || (is_iq_suffix s || contains s (text "bf16" ∷ text "fp16" ∷ text "f16" ∷ text "f32" ∷ []))

-- `s.replace(/[-_](q\d\w*|iq\d\w*|bf16|fp16|f16|f32)$/i, '')`: the leftmost match
abbrev strip_quant : Text → Text
strip_quant [] = []
strip_quant (c ∷ s) =
    let rest = strip_quant s in
    if (c == b'-' || c == b'_') && is_quant (to_lower s) then [] else c ∷ rest

-- `s.replace(/[^a-z0-9]/g, '')`
abbrev alphanumeric : Text → Text
alphanumeric = keep (λ c. is_lower c || is_digit c)

unfoldable pub normalize_model_token : Text → Text
normalize_model_token id = alphanumeric (to_lower (strip_quant (strip_gguf (base_name id))))

-- `loadedTok.length > 0 && loadedTok.startsWith(tok)`
unfoldable pub is_loaded_as : Text → Text → Bool
is_loaded_as tok id =
    let loaded_tok = normalize_model_token id in is_set loaded_tok && starts_with tok loaded_tok

abbrev find_loaded : Text → List Text → Option Text
find_loaded tok [] = none
find_loaded tok (id ∷ ids) =
    let later = find_loaded tok ids in if is_loaded_as tok id then some id else later

-- `if (fuzzy) return fuzzy;` before the first of the loaded models
abbrev or_first : Option Text → Text → Text
or_first none first = first
or_first (some id) first = if is_set id then id else first

abbrev by_token : Text → List Text → Text → Text
by_token tok ids first = if is_set tok then or_first (find_loaded tok ids) first else first

abbrev pick_loaded : List Text → Text → Text → Text
pick_loaded ids first requested =
    if not (is_set requested)
    then first
    else if contains requested ids
    then requested
    else by_token (normalize_model_token requested) ids first

unfoldable pub resolve_lm_studio_model : List Text → Text → Option Text
resolve_lm_studio_model [] requested = none
resolve_lm_studio_model (id ∷ ids) requested = some (pick_loaded (id ∷ ids) id requested)

abbrev cons_id : Option Json → List Text → List Text
cons_id (some (string s)) ids = s ∷ ids
cons_id _ ids = ids

-- the `id` of an element that is an object
abbrev ids_of : Items → List Text
ids_of nil = []
ids_of (cons x xs) = cons_id (prop (text "id") x) (ids_of xs)

abbrev ids_of_data : Option Json → Option (List Text)
ids_of_data (some (array xs)) = some (ids_of xs)
ids_of_data _ = none

unfoldable pub extract_model_ids : Option Json → Option (List Text)
extract_model_ids none = none
extract_model_ids (some json) = ids_of_data (prop (text "data") json)

-- What the code asks of a model that stands for the request.
abbrev pub Fits : Text → Text → Type 0
Fits requested id = starts_with (normalize_model_token requested) (normalize_model_token id) ≡ true

starts_with_refl : (s : Text) → starts_with s s ≡ true
starts_with_refl [] = refl
starts_with_refl (c ∷ s) = ground (arith, starts_with_refl s)

find_loaded-some :
    (tok : Text) (ids : List Text) (id : Text)
    → find_loaded tok ids ≡ some id
    → (contains id ids ≡ true) × (is_loaded_as tok id ≡ true)
find_loaded-some tok [] id h = cc
find_loaded-some tok (x ∷ xs) id h = elim (Bool-cases (is_loaded_as tok x)) [
  | inl on ↦ let e : x ≡ id = some_inj.0 (rw on at h) in rw (sym e) (ground (arith, beq_refl x, on))
  | inr off ↦
      let later = find_loaded-some tok xs id (rw off at h) in (ground (arith, later), later.1)
]

find_loaded-none :
    (tok : Text) (ids : List Text)
    → find_loaded tok ids ≡ none
    → some_of (is_loaded_as tok) ids ≡ false
find_loaded-none tok [] h = refl
find_loaded-none tok (x ∷ xs) h = ground (arith, find_loaded-none tok xs)

is_loaded_as-filled : (tok id : Text) → is_loaded_as tok id ≡ true → is_set id ≡ true
unfolding is_loaded_as normalize_model_token
is_loaded_as-filled tok [] h = cc
is_loaded_as-filled tok (c ∷ s) h = refl

is_loaded_as-starts :
    (tok id : Text) → is_loaded_as tok id ≡ true → starts_with tok (normalize_model_token id) ≡ true
unfolding is_loaded_as
is_loaded_as-starts tok id h = ground arith

module _ (tok first : Text) (ids : List Text) where
  by_token-loaded : contains first ids ≡ true → contains (by_token tok ids first) ids ≡ true
  by_token-loaded h = elim (Bool-cases (is_set tok)) [
    | inr empty ↦ rw empty h
    | inl filled ↦ elim (Option-cases (find_loaded tok ids)) [
      | inl unknown ↦ rw (filled, unknown) h
      | inr (id, found) ↦
          let at = find_loaded-some tok ids id found in
          rw (filled, found, is_loaded_as-filled tok id at.1) at.0
    ]
  ]

  by_token-starts :
      is_set tok ≡ true
      → some_of (is_loaded_as tok) ids ≡ true
      → starts_with tok (normalize_model_token (by_token tok ids first)) ≡ true
  by_token-starts filled some_loaded = elim (Option-cases (find_loaded tok ids)) [
    | inl unknown ↦ cc (find_loaded-none tok ids unknown, some_loaded)
    | inr (id, found) ↦
        let at = find_loaded-some tok ids id found in
        rw (filled, found, is_loaded_as-filled tok id at.1) (is_loaded_as-starts tok id at.1)
  ]

module _ (first requested : Text) (ids : List Text) where
  pick_loaded-loaded :
      contains first ids ≡ true → contains (pick_loaded ids first requested) ids ≡ true
  pick_loaded-loaded h = elim (Bool-cases (is_set requested)) [
    | inr none_asked ↦ rw none_asked h
    | inl asked ↦ elim (Bool-cases (contains requested ids)) [
      | inl there ↦ rw (asked, there) there
      | inr other ↦
          rw (asked, other) (by_token-loaded (normalize_model_token requested) first ids h)
    ]
  ]

  pick_loaded-Fits :
      is_set requested ≡ true
      → is_set (normalize_model_token requested) ≡ true
      → some_of (is_loaded_as (normalize_model_token requested)) ids ≡ true
      → Fits requested (pick_loaded ids first requested)
  pick_loaded-Fits asked filled some_loaded = elim (Bool-cases (contains requested ids)) [
    | inl there ↦ rw (asked, there) (starts_with_refl (normalize_model_token requested))
    | inr other ↦
        rw (asked, other)
          (by_token-starts (normalize_model_token requested) first ids filled some_loaded)
  ]

-- While a model is loaded, the model that LM Studio is asked for is loaded. It is the requested one
-- where that is loaded; otherwise its normalized name starts with that of the request, if that is not
-- empty and a loaded model's does.
pub resolve_lm_studio_model_lem :
    (first : Text) (rest : List Text) (requested : Text)
    → (id : Text) × (resolve_lm_studio_model (first ∷ rest) requested ≡ some id)
      × (contains id (first ∷ rest) ≡ true)
      × (is_set requested ≡ true → contains requested (first ∷ rest) ≡ true → id ≡ requested)
      × (is_set requested ≡ true
          → is_set (normalize_model_token requested) ≡ true
          → some_of (is_loaded_as (normalize_model_token requested)) (first ∷ rest) ≡ true
          → Fits requested id)
unfolding resolve_lm_studio_model
resolve_lm_studio_model_lem first rest requested = (
  pick_loaded (first ∷ rest) first requested,
  refl,
  pick_loaded-loaded first requested (first ∷ rest) (ground (arith, beq_refl first)),
  λ asked there. rw (asked, there) refl,
  pick_loaded-Fits first requested (first ∷ rest),
)

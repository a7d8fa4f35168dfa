-- ===== src/Director/Patches.antt =====
-- The patches in a text that the Director's model wrote: `parseAgentPatches`, src/director/agent-loop.ts.
-- `JSON.parse`, the ids and the time of the patches are parameters.
use msrouter.Prelude.{
  ℕ, ◌+◌, ◌-◌, ◌≡◌, ◌≢◌, refl, inl, inr, Bool, true, false, ◌&&◌, ◌||◌, Option, none, some, List,
  [], ◌∷◌, arith, ◌==◌, nat_eq, text_eq, leb, if◌then◌else◌, every, includes, Text, text, Map, All,
  Bool-cases,
}
use msrouter.Json.{Json, string, array, object, Items, nil, cons, Fields, end, field, prop}

pub data Risk : Type 0 where
  low medium high : Risk

pub record Patch : Type 0 where
  pub id : Text
  pub created_at : Text
  pub overrides : Map Text Text
  pub rationale : Text
  pub risk : Risk

abbrev pub is_upper : ℕ → Bool
is_upper c = leb b'A' c && leb c b'Z' || c == b'_'

-- `KEY_RE`: `/^[A-Z_][A-Z0-9_]*$/`
abbrev pub is_key : Text → Bool
is_key [] = false
is_key (c ∷ s) = is_upper c && every (λ d. is_upper d || (leb b'0' d && leb d b'9')) s

-- the text from the first `{` on
abbrev pub from_brace : Text → Text
from_brace [] = []
from_brace (c ∷ s) = let later = from_brace s in if c == b'{' then c ∷ s else later

abbrev depth_after : ℕ → ℕ → ℕ
depth_after depth c = if c == b'{' then depth + 1 else if c == b'}' then depth - 1 else depth

-- and up to the `}` that closes it, or to the end
abbrev pub to_close : ℕ → Text → Text
to_close depth [] = []
to_close depth (c ∷ s) =
    let rest = to_close (depth_after depth c) s in
    if depth_after depth c == 0 then c ∷ [] else c ∷ rest

abbrev cons_override : Text → Json → Option (Map Text Text) → Option (Map Text Text)
cons_override k (string v) (some rest) = if is_key k then some ((k, v) ∷ rest) else none
cons_override k _ _ = none

-- the overrides, none if a key or a value is not fit
abbrev pub clean : Fields → Option (Map Text Text)
clean end = some []
clean (field k v fs) = cons_override k v (clean fs)

abbrev pub overrides_of : Option Json → Option (Map Text Text)
overrides_of (some (object fs)) = clean fs
overrides_of _ = none

abbrev text_or_empty : Option Json → Text
text_or_empty (some (string s)) = s
text_or_empty _ = []

abbrev risk_of : Option Json → Risk
risk_of (some (string s)) =
    if s == text "medium" then medium else if s == text "high" then high else low
risk_of _ = low

module _ (parse : Text → Option Json) (new_id : ℕ → Text) (now_iso : Text) where
  abbrev cons_patch : ℕ → Json → Option (Map Text Text) → (ℕ → List Patch) → List Patch
  cons_patch n item (some (o ∷ os)) rest =
      record {
        id = new_id n;
        created_at = now_iso;
        overrides = o ∷ os;
        rationale = text_or_empty (prop (text "rationale") item);
        risk = risk_of (prop (text "risk") item);
      }
      ∷ rest (n + 1)
  cons_patch n item _ rest = rest n

  abbrev pub patches_from : Items → ℕ → List Patch
  patches_from nil n = []
  patches_from (cons item items) n =
      cons_patch n item (overrides_of (prop (text "overrides") item)) (patches_from items)

  abbrev patches_in : Option Json → List Patch
  patches_in (some (array items)) = patches_from items 0
  patches_in _ = []

  abbrev patches_of : Option Json → List Patch
  patches_of none = []
  patches_of (some v) = patches_in (prop (text "patches") v)

  unfoldable pub parse_agent_patches : Text → List Patch
  parse_agent_patches s =
      let json = to_close 0 (from_brace s) in
      if includes (text "\"patches\"") json then patches_of (parse json) else []

-- A patch that may be applied: it has overrides, and every key of them is a variable's name.
abbrev pub IsFit : Patch → Type 0
IsFit p = (every (λ o. is_key o.0) p.overrides ≡ true) × (p.overrides ≢ [])

abbrev KeysFit : Option (Map Text Text) → Type 0
KeysFit none = Unit
KeysFit (some os) = every (λ o. is_key o.0) os ≡ true

cons_override-KeysFit :
    (k : Text) (v : Json) (r : Option (Map Text Text)) → KeysFit r → KeysFit (cons_override k v r)
cons_override-KeysFit k (string v) (some rest) h = elim (Bool-cases (is_key k)) [
  | inl fit ↦ rw (cons_override, fit) (ground arith)
  | inr unfit ↦ rw (cons_override, unfit) tt
]
cons_override-KeysFit k (string v) none h = tt
cons_override-KeysFit k _ r h = tt

clean-KeysFit : (fs : Fields) → KeysFit (clean fs)
clean-KeysFit end = refl
clean-KeysFit (field k v fs) = cons_override-KeysFit k v (clean fs) (clean-KeysFit fs)

overrides_of-KeysFit : (v : Option Json) → KeysFit (overrides_of v)
overrides_of-KeysFit (some (object fs)) = clean-KeysFit fs
overrides_of-KeysFit _ = tt

module _ (parse : Text → Option Json) (new_id : ℕ → Text) (now_iso : Text) where
  cons_patch-IsFit :
      (n : ℕ) (item : Json) (r : Option (Map Text Text)) (rest : ℕ → List Patch)
      → KeysFit r
      → ((m : ℕ) → All IsFit (rest m))
      → All IsFit (cons_patch parse new_id now_iso n item r rest)
  cons_patch-IsFit n item (some (o ∷ os)) rest fit later = ((fit, λ e. cc), later (n + 1))
  cons_patch-IsFit n item (some []) rest fit later = later n
  cons_patch-IsFit n item none rest fit later = later n

  patches_from-IsFit :
      (items : Items) (n : ℕ) → All IsFit (patches_from parse new_id now_iso items n)
  patches_from-IsFit nil n = tt
  patches_from-IsFit (cons item items) n =
      cons_patch-IsFit n item (overrides_of (prop (text "overrides") item))
        (patches_from parse new_id now_iso items)
        (overrides_of-KeysFit (prop (text "overrides") item)) (patches_from-IsFit items)

  patches_in-IsFit : (v : Option Json) → All IsFit (patches_in parse new_id now_iso v)
  patches_in-IsFit (some (array items)) = patches_from-IsFit items 0
  patches_in-IsFit _ = tt

  patches_of-IsFit : (v : Option Json) → All IsFit (patches_of parse new_id now_iso v)
  patches_of-IsFit none = tt
  patches_of-IsFit (some v) = patches_in-IsFit (prop (text "patches") v)

  -- Every patch that is read out of a text, whatever the text, has overrides, all of them for keys that
  -- are names of variables.
  pub parse_agent_patches-IsFit :
      (s : Text) → All IsFit (parse_agent_patches parse new_id now_iso s)
  unfolding parse_agent_patches
  parse_agent_patches-IsFit s =
      elim (Bool-cases (includes (text "\"patches\"") (to_close 0 (from_brace s)))) [
        | inl named ↦ rw named (patches_of-IsFit (parse (to_close 0 (from_brace s))))
        | inr unnamed ↦ rw unnamed tt
      ]

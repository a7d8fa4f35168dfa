-- ===== src/Endpoint/Pool.antt =====
-- The pool of OpenRouter keys: src/providers/openrouter.ts. Its queue holds the raw indices of the keys
-- and is changed by `attempt` only.
use msrouter.Prelude.{
  ℕ, ◌+◌, ◌<◌, ◌≡◌, inl, inr, refl, Bool, true, false, not, Option, none, some, List, [], ◌∷◌, ◌++◌,
  Perm, nat_eq, ltb, lt→ltb, if◌then◌else◌, length, get_elem?, Text, text, is_set, Bool-cases,
}
use mathlib.Core.List.Perm
use msrouter.Provider.Status.{key_failure, transient, bad_request, CallResult, answer, failed}
use msrouter.Rotation.{RotationQueue, of_items, item_at, demote}
use msrouter.Rotation.Order.{demote-perm}
use msrouter.Json.{Fields}
use msrouter.Fetch.Post.{Response}
use msrouter.Endpoint.Call.{Network, UpstreamOptions, post, with_model}

pub record PoolConfig : Type 0 where
  pub keys : List Text
  pub timeout_ms : ℕ
  pub referer : Text
  pub title : Text

abbrev pub indices_from : ℕ → List Text → List ℕ
indices_from i [] = []
indices_from i (k ∷ ks) = i ∷ indices_from (i + 1) ks

-- the queue of the constructor
unfoldable pub pool_queue : PoolConfig → RotationQueue ℕ
unfolding of_items
pool_queue c = of_items (indices_from 0 c.keys)

abbrev pub no_key : Text → CallResult Response
no_key message = failed (record { kind = key_failure; status = 0; message = message })

abbrev pub is_key_failure : CallResult Response → Bool
is_key_failure (answer r m) = false
is_key_failure (failed o) = elim o.kind [
  | key_failure ↦ true
  | transient ↦ false
  | bad_request ↦ false
]

-- `opts.keyIndex ?? 0`
abbrev pub index_or_first : Option ℕ → ℕ
index_or_first none = 0
index_or_first (some i) = i

unfoldable pub pool_options : PoolConfig → Text → UpstreamOptions
pool_options c key = record {
  base_url = text "https://openrouter.ai/api/v1";
  authorization = text "Bearer " ++ key;
  extra_headers = (text "http-referer", c.referer) ∷ (text "x-title", c.title) ∷ [];
  timeout_ms = c.timeout_ms;
  first_byte_timeout_ms = 0;
  unwrap_data = false;
}

-- what the queue becomes
abbrev pub settle_key : ℕ → CallResult Response → RotationQueue ℕ → RotationQueue ℕ
settle_key raw res q = if is_key_failure res then demote raw q else q

module _ (u : Network) (c : PoolConfig) where
  open u use {World}

  -- `this.keys[rawIdx]`, where an empty key counts as missing
  unfoldable pub attempt_key :
      Fields
      → Text
      → ℕ
      → Option Text
      → RotationQueue ℕ
      → World
      → CallResult Response × RotationQueue ℕ × World
  unfolding post pool_options
  attempt_key body model raw none q w = (no_key (text "openrouter: key missing"), q, w)
  attempt_key body model raw (some key) q w =
      if not (is_set key)
      then (no_key (text "openrouter: key missing"), q, w)
      else let (res, w') = post u (with_model model body) (pool_options c key) w in
        (res, settle_key raw res q, w')

  unfoldable pub attempt_at :
      Fields
      → Text
      → Option ℕ
      → RotationQueue ℕ
      → World
      → CallResult Response × RotationQueue ℕ × World
  unfolding attempt_key
  attempt_at body model none q w = (no_key (text "openrouter: key index out of range"), q, w)
  attempt_at body model (some raw) q w = attempt_key body model raw (get_elem? c.keys raw) q w

  unfoldable pub pool_attempt :
      Fields
      → Text
      → Option ℕ
      → RotationQueue ℕ
      → World
      → CallResult Response × RotationQueue ℕ × World
  unfolding attempt_at item_at
  pool_attempt body model key_index q w =
      if not (ltb 0 (length c.keys))
      then (no_key (text "openrouter: no keys configured"), q, w)
      else attempt_at body model (item_at (index_or_first key_index) q) q w

  settle_key-perm :
      (raw : ℕ) (res : CallResult Response) (q : RotationQueue ℕ)
      → Perm (settle_key raw res q).order q.order
  settle_key-perm raw res q = elim (Bool-cases (is_key_failure res)) [
    | inl bad ↦ rw bad (demote-perm raw q)
    | inr good ↦ rw good Perm.rfl
  ]

  attempt_key-perm :
      (body : Fields) (model : Text) (raw : ℕ) (key : Option Text) (q : RotationQueue ℕ) (w : World)
      → Perm (attempt_key body model raw key q w).1.order q.order
  unfolding attempt_key
  attempt_key-perm body model raw none q w = Perm.rfl
  attempt_key-perm body model raw (some key) q w = elim (Bool-cases (is_set key)) [
    | inl on ↦
        rw on (settle_key-perm raw (post u (with_model model body) (pool_options c key) w).0 q)
    | inr off ↦ rw off Perm.rfl
  ]

  attempt_at-perm :
      (body : Fields) (model : Text) (raw : Option ℕ) (q : RotationQueue ℕ) (w : World)
      → Perm (attempt_at body model raw q w).1.order q.order
  unfolding attempt_at
  attempt_at-perm body model none q w = Perm.rfl
  attempt_at-perm body model (some raw) q w =
      attempt_key-perm body model raw (get_elem? c.keys raw) q w

  -- An attempt, whatever comes of it, keeps every key in the pool's queue, once.
  pub pool_attempt-perm :
      (body : Fields) (model : Text) (key_index : Option ℕ) (q : RotationQueue ℕ) (w : World)
      → Perm (pool_attempt body model key_index q w).1.order q.order
  unfolding pool_attempt
  pool_attempt-perm body model key_index q w = elim (Bool-cases (ltb 0 (length c.keys))) [
    | inl on ↦ rw on (attempt_at-perm body model (item_at (index_or_first key_index) q) q w)
    | inr off ↦ rw off Perm.rfl
  ]

  -- The call of an attempt, for a pool of set keys whose queue holds indices of keys.
  pub attempt-calls :
      (body : Fields) (model : Text) (key_index : Option ℕ) (q : RotationQueue ℕ) (w : World)
      (raw : ℕ) (key : Text)
      → item_at (index_or_first key_index) q ≡ some raw
      → get_elem? c.keys raw ≡ some key
      → is_set key ≡ true
      → 0 < length c.keys
      → let r = post u (with_model model body) (pool_options c key) w in
        pool_attempt body model key_index q w ≡ (r.0, settle_key raw r.0 q, r.1)
  unfolding pool_attempt attempt_at attempt_key
  attempt-calls body model key_index q w raw key at here set' positive =
      rw (lt→ltb 0 (length c.keys) positive, at, here, set') refl

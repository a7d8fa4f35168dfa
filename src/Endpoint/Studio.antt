-- ===== src/Endpoint/Studio.antt =====
-- LM Studio: `LmStudioProvider`, src/providers/lmstudio.ts, whose state is the discovery that it keeps.
use msrouter.Prelude.{
  ℕ, ◌+◌, ◌≡◌, ◌⊎◌, inl, inr, ◌&&◌, &&-true, Bool-cases, ap, is_set, true, false, not, Option, none,
  some, List, [], ◌∷◌, ◌++◌, ◌==◌, text_eq, ltb, contains, if◌then◌else◌, Text, text,
}
use msrouter.Provider.Status.{key_failure, CallResult, answer, failed}
use msrouter.Json.{Fields}
use msrouter.Fetch.Post.{Response}
use msrouter.Endpoint.Call.{Network, UpstreamOptions, strip_slashes, post, with_model}
use msrouter.Endpoint.Models.{
  resolve_lm_studio_model, extract_model_ids, resolve_lm_studio_model_lem,
}

pub record LmStudioConfig : Type 0 where
  pub base_url : Text
  pub timeout_ms : ℕ

pub record Discovery : Type 0 where
  pub ids : List Text
  pub at : ℕ

abbrev pub discovery_ttl_ms : ℕ
discovery_ttl_ms = 30000

unfoldable pub studio_options : LmStudioConfig → UpstreamOptions
studio_options c = record {
  base_url = c.base_url;
  authorization = text "Bearer lm-studio";
  extra_headers = [];
  timeout_ms = c.timeout_ms;
  first_byte_timeout_ms = 0;
  unwrap_data = false;
}

-- `{ ...result, resolvedModel: resolved }`
abbrev pub tag_resolved : Text → Text → CallResult Response → CallResult Response
tag_resolved model resolved (answer r m) =
    if not (resolved == model) then answer r (some resolved) else answer r m
tag_resolved model resolved (failed o) = failed o

abbrev pub or_requested : Option Text → Text → Text
or_requested none model = model
or_requested (some id) model = id

module _ (u : Network) (c : LmStudioConfig) where
  open u use {World, now, get_json}

  abbrev pub keep_ids :
      ℕ
      → Option (List Text)
      → Option Discovery
      → World
      → Option (List Text) × Option Discovery × World
  keep_ids time none d w = (none, d, w)
  keep_ids time (some ids) d w = (some ids, some (record { ids = ids; at = time }), w)

  unfoldable pub discover :
      ℕ → Option Discovery → World → Option (List Text) × Option Discovery × World
  unfolding extract_model_ids
  discover time d w =
      let (json, w') = get_json (strip_slashes c.base_url ++ text "/models") w in
      keep_ids time (extract_model_ids json) d w'

  abbrev pub list_loaded_models :
      Option Discovery → World → Option (List Text) × Option Discovery × World
  list_loaded_models none w = discover (now w) none w
  list_loaded_models (some d) w =
      if ltb (now w) (d.at + discovery_ttl_ms)
      then (some d.ids, some d, w)
      else discover (now w) (some d) w

  unfoldable pub ask_model :
      Fields
      → Text
      → Text
      → Option Discovery
      → World
      → CallResult Response × Option Discovery × World
  unfolding post studio_options
  ask_model body model resolved d w =
      let (res, w') = post u (with_model resolved body) (studio_options c) w in
      (tag_resolved model resolved res, d, w')

  unfoldable pub attempt_loaded :
      Fields
      → Text
      → Option (List Text)
      → Option Discovery
      → World
      → CallResult Response × Option Discovery × World
  unfolding ask_model resolve_lm_studio_model
  attempt_loaded body model none d w = ask_model body model model d w
  attempt_loaded body model (some []) d w = (
    failed (record {
      kind = key_failure;
      status = 0;
      message = text "lmstudio: server up but no models loaded";
    }),
    d,
    w,
  )
  attempt_loaded body model (some (id ∷ ids)) d w =
      ask_model body model (or_requested (resolve_lm_studio_model (id ∷ ids) model) model) d w

  unfoldable pub studio_attempt :
      Fields → Text → Option Discovery → World → CallResult Response × Option Discovery × World
  unfolding attempt_loaded discover
  studio_attempt body model d w =
      let (loaded, d', w') = list_loaded_models d w in attempt_loaded body model loaded d' w'

  attempt_loaded-some :
      (body : Fields) (model : Text) (first : Text) (rest : List Text) (id : Text)
      (d : Option Discovery) (w : World)
      → resolve_lm_studio_model (first ∷ rest) model ≡ some id
      → attempt_loaded body model (some (first ∷ rest)) d w ≡ ask_model body model id d w
  unfolding attempt_loaded
  attempt_loaded-some body model first rest id d w resolved =
      ap (λ r. ask_model body model (or_requested r model) d w) resolved

  exact_or :
      (model first : Text) (rest : List Text) (id : Text)
      → (is_set model ≡ true → contains model (first ∷ rest) ≡ true → id ≡ model)
      → (id ≡ model) ⊎ ((is_set model && contains model (first ∷ rest)) ≡ false)
  exact_or model first rest id exact =
      elim (Bool-cases (is_set model && contains model (first ∷ rest))) [
        | inl both ↦
            let (asked, loaded) = &&-true (is_set model) (contains model (first ∷ rest)) both in
            inl (exact asked loaded)
        | inr not_both ↦ inr not_both
      ]

  -- When LM Studio is known to have models loaded, an attempt asks it for one of them, and for the one
  -- that was requested if that is loaded.
  studio_attempt_lem :
      (body : Fields) (model : Text) (d : Option Discovery) (w : World) (first : Text)
      (rest : List Text)
      → (list_loaded_models d w).0 ≡ some (first ∷ rest)
      → (id : Text) × (contains id (first ∷ rest) ≡ true)
        × ((id ≡ model) ⊎ ((is_set model && contains model (first ∷ rest)) ≡ false))
        × (studio_attempt body model d w
            ≡ ask_model body model id (list_loaded_models d w).1 (list_loaded_models d w).2)
  unfolding studio_attempt
  studio_attempt_lem body model d w first rest e =
      let chosen = resolve_lm_studio_model_lem first rest model in
      (
        chosen.0,
        chosen.2,
        exact_or model first rest chosen.0 chosen.3,
        rw e (
            attempt_loaded-some body model first rest chosen.0 (list_loaded_models d w).1
              (list_loaded_models d w).2 chosen.1),
      )

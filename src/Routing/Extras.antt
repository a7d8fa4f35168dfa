-- ===== src/Routing/Extras.antt =====
-- The extra single-key providers' entries, src/providers/extras.ts, and which providers are
-- available (the `available` getters of openrouter.ts, single-key.ts, local.ts and lmstudio.ts).
use msrouter.Prelude.{
  Bool, true, false, not, ◌&&◌, ltb, List, [], ◌∷◌, ◌++◌, map, ◌==◌, text_eq, if◌then◌else◌, length,
  keep, concat, contains, Text, text, is_set, trim,
}
use msrouter.Config.{Env}
use msrouter.Provider.{RoutingEntry}
use msrouter.Provider.Ids.{
  ProviderId, openrouter, openai, zai, tokenrouter, opencodego, opencode, local, lmstudio, laptop,
  unorouter, groq, sambanova, mistral, gemini, cline, cloudflare, id_name,
}

-- The parsed environment with the OpenRouter keys.
pub record ResolvedConfig : Type 0 where
  pub env : Env
  pub open env use *
  pub openrouter_keys : List Text

unfoldable pub available : ResolvedConfig → ProviderId → Bool
available c openrouter = ltb 0 (length c.openrouter_keys)
available c openai = is_set c.env.openai_api_key
available c zai = is_set c.env.zai_api_key
available c tokenrouter = is_set c.env.tokenrouter_api_key
available c opencodego = is_set c.env.opencodego_api_key
available c opencode = is_set c.env.opencode_api_key
available c local = true
available c lmstudio = true
available c laptop = true
available c unorouter = is_set c.env.unorouter_api_key
available c groq = is_set c.env.groq_api_key
available c sambanova = is_set c.env.sambanova_api_key
available c mistral = is_set c.env.mistral_api_key
available c gemini = is_set c.env.gemini_api_key
available c cline = is_set c.env.cline_api_key
available c cloudflare = is_set c.env.cloudflare_api_key

-- `[...new Set(xs)]`: the members that `seen` does not hold, each once, in order.
unfoldable pub unique_after : List Text → List Text → List Text
unique_after seen [] = []
unique_after seen (x ∷ xs) =
    if contains x seen then unique_after seen xs else x ∷ unique_after (x ∷ seen) xs

abbrev pub differs : Text → Text → Bool
differs primary m = not (m == primary)

-- The models of one provider: the primary one, and the others once each.
unfoldable pub slot_models : Text → List Text → List Text
unfolding unique_after
slot_models primary more = primary ∷ keep (differs primary) (unique_after [] more)

-- the later entries' labels carry the model
abbrev pub extra_entry : ProviderId → Bool → Text → RoutingEntry
extra_entry p first model = record {
  provider = p;
  label = if first then id_name p else id_name p ++ text "/" ++ model;
  model = model;
  attempt_index = 0;
}

abbrev pub slot_entries : ProviderId → List Text → List RoutingEntry
slot_entries p [] = []
slot_entries p (m ∷ ms) = extra_entry p true m ∷ map (extra_entry p false) ms

unfoldable pub slot : ProviderId → Bool → Text → List Text → List RoutingEntry
unfolding slot_models
slot p has_key model more =
    if has_key && is_set (trim model) then slot_entries p (slot_models (trim model) more) else []

-- the blocks that are pushed in turn
unfoldable pub extra_blocks : Env → List (List RoutingEntry)
extra_blocks e =
    slot unorouter (is_set e.unorouter_api_key) e.unorouter_model e.unorouter_models
    ∷ slot groq (is_set e.groq_api_key) e.groq_model e.groq_models
    ∷ slot sambanova (is_set e.sambanova_api_key) e.sambanova_model e.sambanova_models
    ∷ slot mistral (is_set e.mistral_api_key) e.mistral_model e.mistral_models
    ∷ slot gemini (is_set e.gemini_api_key) e.gemini_model e.gemini_models
    ∷ slot cline (is_set e.cline_api_key) e.cline_model e.cline_models
    ∷ slot cloudflare (is_set e.cloudflare_api_key && is_set e.cloudflare_account_id)
        e.cloudflare_model e.cloudflare_models
    ∷ []

unfoldable pub extra_routing_entries : Env → List RoutingEntry
unfolding extra_blocks
extra_routing_entries e = concat (extra_blocks e)

pub record ProviderModel : Type 0 where
  pub provider : ProviderId
  pub model : Text

unfoldable pub extra_default_models : Env → List ProviderModel
unfolding extra_routing_entries
extra_default_models e =
    map (λ x. record { provider = x.provider; model = x.model }) (extra_routing_entries e)

-- ===== src/Routing/Entries.antt =====
-- `buildRoutingEntries` and `isProviderDefaultModel`, src/providers/chain-routing.ts.
use msrouter.Prelude.{
  ℕ, zero, suc, ◌+◌, ◌/◌, ◌%◌, Bool, ◌&&◌, ◌||◌, List, [], ◌∷◌, ◌++◌, ◌==◌, nat_eq, text_eq,
  if◌then◌else◌, some_of, concat, Text, text, is_set, trim,
}
use msrouter.Config.{Env}
use msrouter.Provider.{RoutingEntry}
use msrouter.Provider.Ids.{
  ProviderId, openrouter, openai, zai, tokenrouter, opencodego, opencode, local, lmstudio, laptop,
  id_name,
}
use msrouter.Routing.Free.{with_free}
use msrouter.Routing.Extras.{ResolvedConfig, available, extra_routing_entries}

-- a number in a template literal
decimal_from : ℕ → ℕ → Text → Text
decimal_from zero n acc = acc
decimal_from (suc fuel) n acc =
    let digit = (n % 10) + b'0' in
    let rest = decimal_from fuel (n / 10) (digit ∷ acc) in
    if (n / 10) == 0 then digit ∷ acc else rest

-- a number below ten to the twentieth
unfoldable pub decimal : ℕ → Text
unfolding decimal_from
decimal n = decimal_from 20 n []

abbrev pub when {ℓ} : {A : Type ℓ} → Bool → List A → List A
when b xs = if b then xs else []

abbrev pub entry : ProviderId → Text → Text → ℕ → RoutingEntry
entry p label model i = record { provider = p; label = label; model = model; attempt_index = i }

-- an entry whose label is its provider's name
abbrev pub plain : ProviderId → Text → ℕ → RoutingEntry
plain p = entry p (id_name p)

-- the keys `i`, `i + 1`, … of one OpenRouter model, as many as there are keys
unfoldable pub key_entries : Text → ℕ → List Text → List RoutingEntry
unfolding decimal
key_entries model i [] = []
key_entries model i (k ∷ ks) =
    entry openrouter (text "openrouter[key" ++ decimal (i + 1) ++ text "/" ++ model ++ text "]")
      model i
    ∷ key_entries model (i + 1) ks

unfoldable pub openrouter_entries : ResolvedConfig → List Text → List RoutingEntry
unfolding key_entries with_free
openrouter_entries c [] = []
openrouter_entries c (model ∷ models) =
    key_entries (with_free model c.env.force_free) 0 c.openrouter_keys
    ++ openrouter_entries c models

module _ (c : ResolvedConfig) where
  open c use {env}

  -- the blocks that are pushed in turn
  unfoldable pub remote_blocks : List (List RoutingEntry)
  remote_blocks =
      when (available c zai) (
        plain zai env.zai_model 0
        ∷ when (is_set env.zai_model_2) (plain zai env.zai_model_2 1 ∷ []))
      ∷ when (available c openrouter)
          (openrouter_entries c (env.openrouter_model ∷ env.openrouter_models))
      ∷ when (available c openai) (plain openai env.openai_model 0 ∷ [])
      ∷ when (available c tokenrouter) (plain tokenrouter env.tokenrouter_model 0 ∷ [])
      ∷ when (available c opencodego) (
          plain opencodego env.opencodego_model 0
          ∷ when (is_set env.opencodego_model_2) (plain opencodego env.opencodego_model_2 1 ∷ []))
      ∷ when (available c opencode && is_set (trim env.opencode_model))
          (plain opencode env.opencode_model 0 ∷ [])
      ∷ extra_routing_entries env
      ∷ []

  unfoldable pub remote_entries : List RoutingEntry
  unfolding remote_blocks
  remote_entries = concat (remote_blocks)

  -- the blocks that are pushed in turn
  unfoldable pub tail_blocks : List (List RoutingEntry)
  tail_blocks =
      when env.local_enabled (plain local env.local_model 0 ∷ [])
      ∷ when env.lmstudio_enabled (plain lmstudio env.lmstudio_model 0 ∷ [])
      ∷ when env.laptop_enabled (plain laptop env.laptop_model 0 ∷ [])
      ∷ []

  unfoldable pub tail_entries : List RoutingEntry
  unfolding tail_blocks
  tail_entries = concat (tail_blocks)

  unfoldable pub build_routing_entries : List RoutingEntry
  unfolding remote_entries tail_entries
  build_routing_entries = remote_entries ++ tail_entries

unfoldable pub is_provider_default_model : Env → Text → Bool
unfolding extra_routing_entries
is_provider_default_model e model =
    model == e.openai_model
    || model == e.zai_model
    || (is_set e.zai_model_2 && model == e.zai_model_2)
    || (is_set e.opencodego_model_2 && model == e.opencodego_model_2)
    || model == e.tokenrouter_model
    || model == e.opencodego_model
    || (is_set e.opencode_model && model == e.opencode_model)
    || model == e.local_model
    || model == e.lmstudio_model
    || model == e.laptop_model
    || some_of (λ x. x.model == model) (extra_routing_entries e)

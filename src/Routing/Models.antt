-- ===== src/Routing/Models.antt =====
-- `resolveModel` and `buildModelList`, src/gateway/model-list.ts.
use msrouter.Prelude.{
  Bool, ◌&&◌, List, [], ◌∷◌, map, text_eq, if◌then◌else◌, contains, concat, Text, text, starts_with,
  to_lower, lower_unit, is_set,
}
use msrouter.Config.{Env}
use msrouter.Provider.Ids.{id_name}
use msrouter.Routing.Extras.{extra_default_models}
use msrouter.Routing.Entries.{when}

-- the set `known`
-- the blocks that are pushed in turn
unfoldable pub known_blocks : Env → List (List Text)
known_blocks e =
    (e.openrouter_model ∷ e.openai_model ∷ e.zai_model ∷ e.tokenrouter_model ∷ e.opencodego_model
      ∷ e.local_model ∷ e.lmstudio_model ∷ e.laptop_model ∷ [])
    ∷ map (λ x. x.model) (extra_default_models e)
    ∷ when (is_set e.opencode_model) (e.opencode_model ∷ [])
    ∷ when (is_set e.zai_model_2) (e.zai_model_2 ∷ [])
    ∷ when (is_set e.opencodego_model_2) (e.opencodego_model_2 ∷ [])
    ∷ []

unfoldable pub known_models : Env → List Text
unfolding known_blocks
known_models e = concat (known_blocks e)

-- `WALK_ALIAS[0] ?? 'mst/free'`
abbrev pub first_alias : List Text → Text
first_alias [] = text "mst/free"
first_alias (a ∷ as') = a

unfoldable pub is_direct : Text → Bool
unfolding lower_unit
is_direct m = starts_with (text "direct:") (to_lower m)

unfoldable pub resolve_model : Env → Text → Text
unfolding known_models is_direct
resolve_model e requested =
    if contains requested e.walk_alias
    then requested
    else if is_direct requested
    then requested
    else if contains requested (known_models e)
    then requested
    else first_alias e.walk_alias

pub record ModelInfo : Type 0 where
  pub id : Text
  pub object : Text
  pub owned_by : Text

abbrev pub info : Text → Text → ModelInfo
info owner id = record { id = id; object = text "model"; owned_by = owner }

-- the blocks that are pushed in turn
unfoldable pub model_blocks : Env → List (List ModelInfo)
model_blocks e =
    map (info (text "msrouter")) e.walk_alias
    ∷ (info (text "openrouter") e.openrouter_model
        ∷ map (info (text "openrouter")) e.openrouter_models)
    ∷ when (is_set e.openai_api_key) (info (text "openai") e.openai_model ∷ [])
    ∷ when (is_set e.zai_api_key) (info (text "zai") e.zai_model ∷ [])
    ∷ when (is_set e.zai_api_key && is_set e.zai_model_2) (info (text "zai") e.zai_model_2 ∷ [])
    ∷ when (is_set e.tokenrouter_api_key) (info (text "tokenrouter") e.tokenrouter_model ∷ [])
    ∷ when (is_set e.opencodego_api_key) (info (text "opencodego") e.opencodego_model ∷ [])
    ∷ when (is_set e.opencodego_api_key && is_set e.opencodego_model_2)
        (info (text "opencodego") e.opencodego_model_2 ∷ [])
    ∷ when (is_set e.opencode_api_key && is_set e.opencode_model)
        (info (text "opencode") e.opencode_model ∷ [])
    ∷ map (λ x. info (id_name x.provider) x.model) (extra_default_models e)
    ∷ when e.local_enabled (info (text "local") e.local_model ∷ [])
    ∷ when e.lmstudio_enabled (info (text "lmstudio") e.lmstudio_model ∷ [])
    ∷ when e.laptop_enabled (info (text "laptop") e.laptop_model ∷ [])
    ∷ []

unfoldable pub build_model_list : Env → List ModelInfo
unfolding model_blocks
build_model_list e = concat (model_blocks e)

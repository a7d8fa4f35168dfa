-- ===== src/Routing/Examples.antt =====
-- Tests of the routing rules: src/providers/chain-routing.ts, extras.ts, shortcircuit.ts and
-- src/gateway/model-list.ts.
use msrouter.Prelude.{
  ◌≡◌, ◌⊎◌, refl, sym, ◌∙◌, inl, inr, true, false, [], ◌∷◌, map, text_eq, contains, Text, text,
}
use mathlib.Core.Bool.{true≢false}
use msrouter.Config.{Env, default_env}
use msrouter.Routing.Extras.{ResolvedConfig, slot, extra_default_models}
use msrouter.Routing.Models.{resolve_model, first_alias, is_direct, known_models, build_model_list}
use msrouter.Routing.Resolution.{IsRecognised, advertised_rewritten}
use msrouter.Routing.Known.{IsKnown, resolve_model_lem}

abbrev qwen : Text
qwen = text "qwen/qwen3"

-- one additional OpenRouter model, and the first local provider
abbrev small_env : Env
small_env = record default_env { openrouter_models = qwen ∷ []; local_enabled = true }

abbrev two_keys : ResolvedConfig
two_keys = record { env = small_env; openrouter_keys = text "k1" ∷ text "k2" ∷ [] }

qwen-unknown : contains qwen (known_models small_env) ≡ false
unfolding known_models extra_default_models slot
qwen-unknown = refl

qwen-not_direct : is_direct qwen ≡ false
unfolding is_direct
qwen-not_direct = refl

qwen-no_alias : contains qwen small_env.walk_alias ≡ false
qwen-no_alias = refl

qwen-unrecognised : ¬ IsRecognised small_env qwen
qwen-unrecognised (inl alias) = true≢false (sym alias ∙ qwen-no_alias)
qwen-unrecognised (inr (inl direct)) = true≢false (sym direct ∙ qwen-not_direct)
qwen-unrecognised (inr (inr known)) = true≢false (sym known ∙ qwen-unknown)

resolve_model_lem_example :
    (IsKnown small_env qwen × (resolve_model small_env qwen ≡ qwen))
    ⊎ (¬ IsKnown small_env qwen × (resolve_model small_env qwen ≡ first_alias small_env.walk_alias))
resolve_model_lem_example = resolve_model_lem small_env qwen

advertised_rewritten_example :
    (contains qwen (map (λ x. x.id) (build_model_list small_env)) ≡ true)
    × (resolve_model small_env qwen ≡ first_alias small_env.walk_alias)
advertised_rewritten_example = advertised_rewritten small_env qwen refl qwen-unrecognised

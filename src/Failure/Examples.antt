-- ===== src/Failure/Examples.antt =====
-- Tests of the failure axes, src/providers/failure-axes.ts: an account with one quota (zai) has two
-- entries, 0 and 2, OpenRouter has the keys 3 and 4, and 1 is another provider.
use msrouter.Prelude.{
  ℕ, zero, suc, ◌+◌, ◌≡◌, refl, true, false, ◌&&◌, none, some, [], ◌∷◌, arith, nat_eq, ltb,
  if◌then◌else◌, contains, text,
}
use msrouter.Provider.{RoutingEntry}
use msrouter.Provider.Ids.{zai, openai, openrouter, provider_eq}
use msrouter.Provider.Status.{Kind, key_failure, AttemptOutcome}
use msrouter.Rotation.{RotationQueue, is_parked, demote, park}
use msrouter.Failure.{Behavior, is_walk, same_provider, apply_failure_axes}
use msrouter.Failure.Axes.{moved_back}
use msrouter.Failure.Effects.{rate_limit_parks_account}

abbrev zai_entry : RoutingEntry
zai_entry = record { provider = zai; label = text "zai"; model = text "glm"; attempt_index = 0 }

abbrev key_entry : ℕ → RoutingEntry
key_entry i = record {
  provider = openrouter;
  label = text "key";
  model = text "free";
  attempt_index = i;
}

abbrev entry_at : ℕ → RoutingEntry
entry_at zero = zai_entry
entry_at (suc zero) = record {
  provider = openai;
  label = text "openai";
  model = text "gpt";
  attempt_index = 0;
}
entry_at (suc (suc zero)) = zai_entry
entry_at (suc (suc (suc zero))) = key_entry 0
entry_at _ = key_entry 1

abbrev five : RotationQueue ℕ
five = record { order = 0 ∷ 1 ∷ 2 ∷ 3 ∷ 4 ∷ []; parked_until = λ _. none }

abbrev walking : Behavior
walking = record {
  demote_on_key_failure = true;
  walk = some (record { started_at = 0; deadline_ms = 0 });
}

abbrev pinned : Behavior
pinned = record { demote_on_key_failure = false; walk = none }

abbrev outcome_of : Kind → ℕ → AttemptOutcome
outcome_of k status = record { kind = k; status = status; message = [] }

abbrev apply_zai : Behavior → AttemptOutcome → RotationQueue ℕ
apply_zai b res = (apply_failure_axes entry_at 60 100 0 zai_entry b (text "glm") res five).1

walking-is_walk : is_walk walking ≡ true
unfolding is_walk
walking-is_walk = refl

rate_limit_parks_account_example :
    ((apply_zai walking (outcome_of key_failure 429)).order
      ≡ moved_back (same_provider entry_at zai_entry) five.order)
    × ((later b : ℕ)
        → is_parked later b (apply_zai walking (outcome_of key_failure 429)) ≡ (
            if contains b five.order && same_provider entry_at zai_entry b
            then ltb later (100 + 60)
            else is_parked later b five))
rate_limit_parks_account_example =
    rate_limit_parks_account entry_at 60 100 0 zai_entry walking (text "glm")
      (outcome_of key_failure 429) five refl refl refl refl (omega arith)

-- The rate limit moves both entries of the account back, in place among themselves.
account_back : (apply_zai walking (outcome_of key_failure 429)).order ≡ 1 ∷ 3 ∷ 4 ∷ 0 ∷ 2 ∷ []
unfolding apply_failure_axes demote park
account_back = refl

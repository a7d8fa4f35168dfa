-- ===== src/Chain/Examples.antt =====
-- Tests of the chain, src/providers/chain.ts: a walk over zai, which is over its quota, and the local
-- model, which answers. The world is the clock; each call takes 10 ms.
use msrouter.Prelude.{
  ℕ, zero, suc, ◌+◌, ◌≤◌, ◌≡◌, refl, true, false, none, some, [], ◌∷◌, Perm, arith, ◌==◌, nat_eq,
  if◌then◌else◌, text,
}
use msrouter.Config.{default_env}
use msrouter.Provider.{RoutingEntry}
use msrouter.Provider.Ids.{ProviderId, zai, local, provider_eq, is_local_tail}
use msrouter.Provider.Status.{key_failure, CallResult, answer, failed}
use msrouter.Routing.Extras.{ResolvedConfig, available}
use msrouter.Chain.{
  Upstream, Served, ok, is_over_walk_deadline, State, attempt_once, iterate, run_single, handle,
}
use msrouter.Chain.Answers.{Genuine, pin_no_fallback}
use msrouter.Chain.Fallback.{local_tail_answers}
use msrouter.Chain.Laws.{handle-perm}
use msrouter.Chain.Pins.{run_single-queue}
use msrouter.Chain.Walks.{walk_respects_deadline}

abbrev reply : ProviderId → CallResult ℕ
reply zai = failed (record { kind = key_failure; status = 429; message = text "quota" })
reply _ = answer 7 none

abbrev test_upstream : Upstream ℕ
test_upstream = record {
  World = ℕ;
  now = λ w. w;
  aborted = λ w. false;
  attempt = λ p model key w. (reply p, w + 10);
  backoff = λ n w. w + 1000;
}

abbrev test_config : ResolvedConfig
test_config = record {
  env = record default_env {
    local_enabled = true;
    single_key = record default_env.single_key { zai_api_key = text "z" };
  };
  openrouter_keys = [];
}

abbrev local_entry : RoutingEntry
local_entry = record {
  provider = local;
  label = text "local";
  model = text "qwen";
  attempt_index = 0;
}

abbrev entry_at : ℕ → RoutingEntry
entry_at zero = record { provider = zai; label = text "zai"; model = text "glm"; attempt_index = 0 }
entry_at (suc _) = local_entry

abbrev start_state : State test_upstream
start_state = record {
  queue = record { order = 0 ∷ 1 ∷ []; parked_until = λ _. none };
  successes = λ _. 0;
  failures = [];
  world = 5;
}

abbrev local_answer : Served ℕ
local_answer = record { response = 7; provider = text "local"; model = text "qwen" }

handle-perm_example :
    Perm
      (handle test_upstream test_config entry_at 9 (text "mst/free") start_state).1.queue.order
      start_state.queue.order
handle-perm_example = handle-perm test_upstream test_config entry_at 9 (text "mst/free") start_state

run_single-answers :
    (run_single test_upstream test_config entry_at 9 local (text "qwen") start_state).0
    ≡ ok local_answer
unfolding run_single available attempt_once
run_single-answers = refl

pin_no_fallback_example :
    (g : Genuine test_upstream test_config local_answer) × (g.entry.provider ≡ local)
pin_no_fallback_example =
    pin_no_fallback test_upstream test_config entry_at 9 local (text "qwen") start_state
      local_answer run_single-answers

run_single-queue_example :
    (run_single test_upstream test_config entry_at 9 zai (text "glm") start_state).1.queue
    ≡ start_state.queue
run_single-queue_example =
    run_single-queue test_upstream test_config entry_at 9 zai (text "glm") start_state refl

-- the first attempt at the local model is let through late
local_is_free :
    is_over_walk_deadline local_entry (record { started_at = 0; deadline_ms = 300 }) 500 0 ≡ false
unfolding is_over_walk_deadline is_local_tail
local_is_free = refl

-- the clock never goes back
walk_respects_deadline_example :
    5 ≤ (iterate test_upstream test_config entry_at none start_state).1.world
walk_respects_deadline_example =
    walk_respects_deadline test_upstream test_config entry_at none start_state (λ w. 5 ≤ w)
      (omega arith) (λ p model key w may h. omega (arith, h)) (λ n w h. omega (arith, h))
      (omega arith)

local_in_tail : is_local_tail local ≡ true
unfolding is_local_tail
local_in_tail = refl

-- even with zai over its quota and the local model parked
abbrev parked_state : State test_upstream
parked_state = record start_state {
  queue = record { order = 0 ∷ 1 ∷ []; parked_until = λ x. if x == 1 then some 999 else none };
}

local_tail_answers_example :
    (r : Served ℕ) × ((iterate test_upstream test_config entry_at none parked_state).0 ≡ ok r)
local_tail_answers_example =
    local_tail_answers test_upstream test_config entry_at local local_in_tail (λ w. refl)
      (λ model key w. (7, none, refl)) none 1 parked_state refl refl

-- ===== src/Chain.antt =====
-- The provider chain, src/providers/chain.ts, with `isOverWalkDeadline`, `dispatchProvider` and
-- `providerFor` of src/providers/chain-routing.ts. What lies outside, the providers' network calls,
-- the clock, the caller's abort signal and the sleeping, is the parameter `Upstream`; its `World` is
-- threaded through every call. Logging is left out.
pub mod Closed
pub mod Answers
pub mod Pins
pub mod Walks
pub mod Skipping
pub mod Passes
pub mod Fallback
pub mod Laws
mod Examples
use msrouter.Prelude.{
  ℕ, zero, suc, ◌+◌, ◌-◌, Bool, true, false, not, ◌&&◌, ◌||◌, Option, none, some, List, [], ◌∷◌,
  ◌++◌, ◌==◌, nat_eq, text_eq, ltb, leb, if◌then◌else◌, length, keep, contains, Text, text,
}
use msrouter.Config.{Env}
use msrouter.Provider.{RoutingEntry}
use msrouter.Provider.Ids.{ProviderId, openrouter, provider_eq, is_local_tail, id_name}
use msrouter.Provider.Status.{
  Kind, key_failure, transient, bad_request, AttemptOutcome, CallResult, answer, failed,
}
use msrouter.Rotation.{RotationQueue, eligible, demote, size, snapshot}
use msrouter.Routing.Free.{with_free}
use msrouter.Routing.Extras.{ResolvedConfig, available}
use msrouter.Routing.Entries.{decimal, is_provider_default_model}
use msrouter.Routing.Pins.{Pin, short_circuit}
use msrouter.Failure.{
  Walk, Behavior, Skipper, new_skipper, should_skip, on_attempt_failed, apply_failure_axes,
}

pub record Upstream (R : Type 0) : Type 1 where
  pub World : Type 0
  -- `Date.now()`
  pub now : World → ℕ
  -- `signal.aborted`
  pub aborted : World → Bool
  -- `attempt(body, signal, { model, keyIndex })` of a provider
  pub attempt : ProviderId → Text → Option ℕ → World → CallResult R × World
  -- `sleep(backoffMs(attempt, …))`
  pub backoff : ℕ → World → World

-- `ChainResult`
pub record Served (R : Type 0) : Type 0 where
  pub response : R
  pub provider : Text
  pub model : Text

-- A line of `failures`.
pub data Note : Type 0 where
  not_configured : (label : Text) → Note
  attempt_failed : (label : Text) (kind : Kind) (status : ℕ) → Note

-- `NoProviderAvailableError`, by what it reports
pub data ChainError : Type 0 where
  walk_aborted : ChainError
  pin_not_configured : ProviderId → ChainError
  all_failed : List Note → ChainError

pub data Outcome (R : Type 0) : Type 0 where
  ok : Served R → Outcome R
  err : ChainError → Outcome R

-- How one attempt ends, and how one pass over the entries ends.
pub data Attempted (R : Type 0) : Type 0 where
  served : Served R → Attempted R
  retry : Attempted R
  given_up : Attempted R

pub data PassEnd (R : Type 0) : Type 0 where
  pass_served : Served R → PassEnd R
  pass_aborted : PassEnd R
  exhausted : PassEnd R

unfoldable pub is_over_walk_deadline : RoutingEntry → Walk → ℕ → ℕ → Bool
is_over_walk_deadline x w now attempt =
    if w.deadline_ms == 0
    then false
    else if ltb (now - w.started_at) w.deadline_ms
    then false
    else if is_local_tail x.provider
    then ltb 0 attempt
    else true

unfoldable pub served_by_model : RoutingEntry → Text → Text
unfolding decimal
served_by_model x resolved =
    if x.provider == openrouter
    then resolved ++ (text "[key" ++ (decimal (x.attempt_index + 1) ++ text "]"))
    else resolved

abbrev pub set_count : Text → ℕ → (Text → ℕ) → Text → ℕ
set_count label n counts l = if label == l then n else counts l

abbrev pub resolved_or : Text → Option Text → Text
resolved_or model none = model
resolved_or model (some m) = m

-- `opts.explicitModel ?? entry.model`
abbrev pub model_for : Option Text → RoutingEntry → Text
model_for none x = x.model
model_for (some m) x = m

abbrev pub walk_behavior : Walk → Behavior
walk_behavior k = record { demote_on_key_failure = true; walk = some k }

abbrev pub pin_behavior : Behavior
pin_behavior = record { demote_on_key_failure = false; walk = none }

abbrev pub pin_entry : ProviderId → Text → ℕ → RoutingEntry
pin_entry p model i = record { provider = p; label = id_name p; model = model; attempt_index = i }

-- The rewriting of an explicit model.
abbrev pub explicit_model : Env → Text → Text
explicit_model e m = if is_provider_default_model e m then m else with_free m e.force_free

module _ {R : Type 0} (u : Upstream R) where
  open u use {World, now, aborted, attempt, backoff}

  pub record State : Type 0 where
    pub queue : RotationQueue ℕ
    pub successes : Text → ℕ
    pub failures : List Note
    pub world : World

  unfoldable pub dispatch_provider : RoutingEntry → Text → World → CallResult R × World
  dispatch_provider x model w =
      if x.provider == openrouter
      then attempt x.provider model (some x.attempt_index) w
      else attempt x.provider model none w

  module _ (c : ResolvedConfig) (entry_of : ℕ → RoutingEntry) where
    -- the bookkeeping of an answer: the weak local tail is demoted after so many in a row
    unfoldable pub on_answer : ℕ → RoutingEntry → State → State
    on_answer ref x s =
        let count = s.successes x.label + 1 in
        if is_local_tail x.provider && leb c.env.success_demote_limit count
        then record s { queue = demote ref s.queue; successes = set_count x.label 0 s.successes }
        else record s { successes = set_count x.label count s.successes }

    -- the call of `applyFailureAxes`
    unfoldable pub charge : ℕ → RoutingEntry → Text → Behavior → AttemptOutcome → State → State
    charge ref x model behavior res t = record t {
      queue =
          (apply_failure_axes entry_of c.env.rate_limit_cooldown_ms (now t.world) ref x behavior
            model res t.queue).1;
    }

    -- a transient failure is retried in place unless it was the last round; all else is charged
    unfoldable pub after_failure :
        Bool
        → ℕ
        → ℕ
        → RoutingEntry
        → Text
        → Behavior
        → AttemptOutcome
        → Kind
        → State
        → Attempted R × State
    unfolding charge
    after_failure true n ref x model behavior res transient t =
        (given_up, charge ref x model behavior res t)
    after_failure false n ref x model behavior res transient t =
        (retry, record t { world = backoff (suc n) t.world })
    after_failure last n ref x model behavior res key_failure t =
        (given_up, charge ref x model behavior res t)
    after_failure last n ref x model behavior res bad_request t =
        (given_up, charge ref x model behavior res t)

    -- the bookkeeping of a failure; `last` when no in-place retry is left
    unfoldable pub on_failure :
        Bool → ℕ → ℕ → RoutingEntry → Text → Behavior → AttemptOutcome → State → Attempted R × State
    unfolding after_failure
    on_failure last n ref x model behavior res s =
        after_failure last n ref x model behavior res res.kind (record s {
          failures = s.failures ++ attempt_failed x.label res.kind res.status ∷ [];
          successes = set_count x.label 0 s.successes;
        })

    -- what the loop of `tryEntry` does with the provider's result
    unfoldable pub settle :
        Bool → ℕ → ℕ → RoutingEntry → Text → Behavior → CallResult R → State → Attempted R × State
    unfolding on_answer on_failure served_by_model
    settle last n ref x model behavior (answer response resolved) s = (
      served (record {
        response = response;
        provider = x.label;
        model = served_by_model x (resolved_or model resolved);
      }),
      on_answer ref x s,
    )
    settle last n ref x model behavior (failed outcome) s =
        on_failure last n ref x model behavior outcome s

    -- one round of the loop, after its tests; `n` is `attempt`
    unfoldable pub attempt_once :
        Bool → ℕ → ℕ → RoutingEntry → Text → Behavior → State → Attempted R × State
    unfolding dispatch_provider settle
    attempt_once last n ref x model behavior s =
        let (res, w) = dispatch_provider x model s.world in
        settle last n ref x model behavior res (record s { world = w })

    abbrev pub over_deadline : RoutingEntry → Behavior → ℕ → World → Bool
    over_deadline x behavior n w = elim behavior.walk [
      | none ↦ false
      | some k ↦ is_over_walk_deadline x k (now w) n
    ]

    -- after a round: return, stop, or go round again
    unfoldable pub after_round :
        (State → Option (Served R) × State) → Attempted R × State → Option (Served R) × State
    after_round again (served r, t) = (some r, t)
    after_round again (retry, t) = again t
    after_round again (given_up, t) = (none, t)

    -- The loop of `tryEntry`, with as many retries left as its first argument says. In the last round
    -- no retry is asked for.
    unfoldable pub try_loop :
        ℕ → ℕ → ℕ → RoutingEntry → Text → Behavior → State → Option (Served R) × State
    unfolding after_round
    try_loop zero n ref x model behavior s =
        if aborted s.world || over_deadline x behavior n s.world
        then (none, s)
        else after_round (λ t. (none, t)) (attempt_once true n ref x model behavior s)
    try_loop (suc left) n ref x model behavior s =
        if aborted s.world || over_deadline x behavior n s.world
        then (none, s)
        else after_round (λ t. try_loop left (suc n) ref x model behavior t)
            (attempt_once false n ref x model behavior s)

    unfoldable pub try_entry :
        ℕ → RoutingEntry → Text → Behavior → State → Option (Served R) × State
    unfolding try_loop
    try_entry ref x model behavior s =
        if available c x.provider
        then try_loop c.env.max_transient_retries 0 ref x model behavior s
        else (none, record s { failures = s.failures ++ not_configured x.label ∷ [] })

    -- return what an entry served, or go on
    unfoldable pub or_go_on :
        (State → PassEnd R × State) → Option (Served R) × State → PassEnd R × State
    or_go_on go (some r, t) = (pass_served r, t)
    or_go_on go (none, t) = go t

    -- The loop of `pass`.
    unfoldable pub pass_loop : Option Text → Walk → List ℕ → Skipper → State → PassEnd R × State
    unfolding try_entry or_go_on
    pass_loop explicit k [] skipper s = (exhausted, s)
    pass_loop explicit k (ref ∷ refs) skipper s =
        if aborted s.world
        then (pass_aborted, s)
        else let x = entry_of ref in
          let skipping = pass_loop explicit k refs skipper s in
          if should_skip ref skipper || is_over_walk_deadline x k (now s.world) 0
          then skipping
          else or_go_on
              (λ t.
                pass_loop explicit k refs
                  (on_attempt_failed entry_of (now t.world) ref skipper t.queue) t)
              (try_entry ref x (model_for explicit x) (walk_behavior k) s)

    unfoldable pub pass : Option Text → Walk → List ℕ → State → PassEnd R × State
    unfolding pass_loop
    pass explicit k entries s =
        pass_loop explicit k entries (new_skipper entry_of (now s.world) entries s.queue) s

    abbrev pub finish : PassEnd R × State → Outcome R × State
    finish (pass_served r, s) = (ok r, s)
    finish (pass_aborted, s) = (err walk_aborted, s)
    finish (exhausted, s) = (err (all_failed s.failures), s)

    -- the second pass, over what the first one left out
    unfoldable pub second_pass : Option Text → Walk → List ℕ → PassEnd R × State → PassEnd R × State
    unfolding pass size snapshot
    second_pass explicit k order (pass_served r, s) = (pass_served r, s)
    second_pass explicit k order (pass_aborted, s) = (pass_aborted, s)
    second_pass explicit k order (exhausted, s) =
        if ltb (length order) (size s.queue)
        then pass explicit k (keep (λ e. not (contains e order)) (snapshot s.queue)) s
        else (exhausted, s)

    unfoldable pub iterate : Option Text → State → Outcome R × State
    unfolding second_pass
    iterate explicit s =
        let k : Walk = record { started_at = now s.world; deadline_ms = c.env.walk_deadline_ms } in
        let (order, q) = eligible (now s.world) s.queue in
        finish (
          second_pass explicit k order
            (pass explicit k order (record s { queue = q; failures = [] })))

    unfoldable pub or_next :
        (State → Outcome R × State) → Option (Served R) × State → Outcome R × State
    or_next go (some r, t) = (ok r, t)
    or_next go (none, t) = go t

    -- A pin's entries are new objects, which the queue does not hold: `detached` is no reference of
    -- the queue.
    module _ (detached : ℕ) where
      -- the loop of `runSingle`, from the key `i`, with so many keys left
      unfoldable pub single_loop : ProviderId → Text → ℕ → ℕ → State → Outcome R × State
      unfolding try_entry or_next
      single_loop p model zero i s = (err (all_failed s.failures), s)
      single_loop p model (suc left) i s =
          if aborted s.world
          then (err walk_aborted, s)
          else or_next (λ t. single_loop p model left (suc i) t)
              (try_entry detached (pin_entry p model i) model pin_behavior s)

      unfoldable pub run_single : ProviderId → Text → State → Outcome R × State
      unfolding single_loop
      run_single p model s =
          if available c p
          then single_loop p model (if p == openrouter then length c.openrouter_keys else 1) 0
              (record s { failures = [] })
          else (err (pin_not_configured p), s)

      unfoldable pub handle : Text → State → Outcome R × State
      unfolding iterate run_single
      handle requested s =
          if contains requested c.env.walk_alias
          then iterate none s
          else elim (short_circuit c.env requested) [
            | some pin ↦ run_single pin.provider pin.model s
            | none ↦ iterate (some (explicit_model c.env requested)) s
          ]

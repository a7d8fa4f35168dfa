-- ===== src/Chain/Walks.antt =====
-- When a walk may still call a provider: `WALK_DEADLINE_MS` and the abort signal,
-- src/providers/chain.ts and `isOverWalkDeadline` of src/providers/chain-routing.ts.
use msrouter.Prelude.{
  ℕ, suc, ◌+◌, ◌-◌, ◌<◌, ◌≡◌, ◌⊎◌, inl, inr, Bool, true, false, Option, none, some, arith, ◌==◌,
  nat_eq, leb, ◌&&◌, Bool-cases, Text,
}
use msrouter.Provider.{RoutingEntry}
use msrouter.Provider.Ids.{ProviderId, is_local_tail, openrouter, provider_eq}
use msrouter.Provider.Status.{
  Kind, key_failure, transient, bad_request, AttemptOutcome, CallResult, answer, failed,
}
use msrouter.Routing.Extras.{ResolvedConfig, available}
use msrouter.Failure.{Walk, Behavior}
use msrouter.Chain.{
  Upstream, is_over_walk_deadline, State, dispatch_provider, on_answer, charge, after_failure,
  on_failure, settle, attempt_once, walk_behavior, iterate,
}
use msrouter.Chain.Closed.{StepKeeps, iterate-Keeps}

-- An attempt that the deadline lets through is early, or the first one at a local entry.
is_over_walk_deadline_lem :
    (x : RoutingEntry) (k : Walk) (now n : ℕ)
    → 0 < k.deadline_ms
    → is_over_walk_deadline x k now n ≡ false
    → (now - k.started_at < k.deadline_ms) ⊎ ((is_local_tail x.provider ≡ true) × (n ≡ 0))
unfolding is_over_walk_deadline
is_over_walk_deadline_lem x k now n positive h = ground arith

module _ {R : Type 0} (u : Upstream R) (c : ResolvedConfig) (entry_of : ℕ → RoutingEntry) where
  open u use {World, now, aborted, attempt, backoff}

  -- A call that a walk started at `start` may make, from the world in which it is made.
  abbrev pub MayCall : ℕ → ProviderId → World → Type 0
  MayCall start p w =
      (aborted w ≡ false)
      × (available c p ≡ true)
      × ((now w - start < c.env.walk_deadline_ms) ⊎ (is_local_tail p ≡ true))

  module _ (start : ℕ) (I : World → Type 0)
      (calls : (p : ProviderId) (model : Text) (key : Option ℕ) (w : World)
        → MayCall start p w
        → I w
        → I (attempt p model key w).1)
      (sleeps : (n : ℕ) (w : World) → I w → I (backoff n w)) where
    after_failure-keeps :
        (last : Bool) (n ref : ℕ) (x : RoutingEntry) (model : Text) (behavior : Behavior)
        (res : AttemptOutcome) (k : Kind) (s : State u)
        → I s.world
        → I (after_failure u c entry_of last n ref x model behavior res k s).1.world
    unfolding after_failure charge
    after_failure-keeps true n ref x model behavior res transient s h = h
    after_failure-keeps false n ref x model behavior res transient s h = sleeps (suc n) s.world h
    after_failure-keeps last n ref x model behavior res key_failure s h = h
    after_failure-keeps last n ref x model behavior res bad_request s h = h

    on_answer-keeps :
        (ref : ℕ) (x : RoutingEntry) (s : State u)
        → I s.world
        → I (on_answer u c entry_of ref x s).world
    unfolding on_answer
    on_answer-keeps ref x s h =
        elim (Bool-cases
          (is_local_tail x.provider && leb c.env.success_demote_limit (s.successes x.label + 1))) [
            | inl full ↦ rw full h
            | inr more ↦ rw more h
          ]

    settle-keeps :
        (last : Bool) (n ref : ℕ) (x : RoutingEntry) (model : Text) (behavior : Behavior)
        (m : CallResult R) (s : State u)
        → I s.world
        → I (settle u c entry_of last n ref x model behavior m s).1.world
    unfolding settle on_failure
    settle-keeps last n ref x model behavior (answer response resolved) s h =
        on_answer-keeps ref x s h
    settle-keeps last n ref x model behavior (failed res) s h =
        after_failure-keeps last n ref x model behavior res res.kind _ h

    dispatch-keeps :
        (x : RoutingEntry) (model : Text) (w : World)
        → MayCall start x.provider w
        → I w
        → I (dispatch_provider u x model w).1
    unfolding dispatch_provider
    dispatch-keeps x model w may h = elim (Bool-cases (x.provider == openrouter)) [
      | inl pooled ↦ rw pooled (calls x.provider model (some x.attempt_index) w may h)
      | inr single ↦ rw single (calls x.provider model none w may h)
    ]

    early_or_local :
        (x : RoutingEntry) (n now' : ℕ)
        → is_over_walk_deadline x
            (record { started_at = start; deadline_ms = c.env.walk_deadline_ms })
            now'
            n
          ≡ false
        → 0 < c.env.walk_deadline_ms
        → (now' - start < c.env.walk_deadline_ms) ⊎ (is_local_tail x.provider ≡ true)
    early_or_local x n now' early positive =
        elim (is_over_walk_deadline_lem x
          (record { started_at = start; deadline_ms = c.env.walk_deadline_ms }) now' n positive
          early) [ inl soon ↦ inl soon | inr (near, _) ↦ inr near ]

    attempt-keeps :
        (ref : ℕ) (x : RoutingEntry) (model : Text)
        → 0 < c.env.walk_deadline_ms
        → StepKeeps u c entry_of
            (λ s. I s.world)
            (λ _. Unit {0})
            ref
            x
            model
            (walk_behavior (record { started_at = start; deadline_ms = c.env.walk_deadline_ms }))
    unfolding attempt_once
    attempt-keeps ref x model positive last n s on live early h = (
      settle-keeps last n ref x model _ _ _ (
          dispatch-keeps x model s.world (live, on, early_or_local x n (now s.world) early positive)
            h),
      λ r e. tt,
    )

  -- With a deadline set, every provider call of a walk is made before the caller aborts, to a
  -- configured provider, and, once the deadline has passed, to the local tail only: whatever those
  -- calls and the pauses between them keep, the walk keeps.
  pub walk_respects_deadline :
      (explicit : Option Text) (s : State u) (I : World → Type 0)
      → 0 < c.env.walk_deadline_ms
      → ((p : ProviderId) (model : Text) (key : Option ℕ) (w : World)
          → MayCall (now s.world) p w
          → I w
          → I (attempt p model key w).1)
      → ((n : ℕ) (w : World) → I w → I (backoff n w))
      → I s.world
      → I (iterate u c entry_of explicit s).1.world
  walk_respects_deadline explicit s I positive calls sleeps h =
      (iterate-Keeps u c entry_of (λ t. I t.world) (λ _. Unit {0}) (λ t l k. k) explicit s
        (λ t k. k) (λ ref. attempt-keeps (now s.world) I calls sleeps ref (entry_of ref) _ positive)
        h).0

-- ===== src/Chain/Pins.antt =====
-- A pin does not disturb the queue of the walks: `runSingle`, src/providers/chain.ts.
use msrouter.Prelude.{
  ℕ, ◌+◌, ◌≡◌, refl, ap, ◌∙◌, inl, inr, Bool, true, false, ◌&&◌, arith, nat_eq, contains, index_of,
  leb, Text, Bool-cases, Option-cases, index_of-some,
}
use msrouter.Provider.{RoutingEntry}
use msrouter.Provider.Ids.{ProviderId, is_local_tail}
use msrouter.Provider.Status.{
  Kind, key_failure, transient, bad_request, AttemptOutcome, CallResult, answer, failed,
}
use msrouter.Rotation.{RotationQueue, demote}
use msrouter.Routing.Extras.{ResolvedConfig}
use msrouter.Failure.{is_walk}
use msrouter.Failure.Effects.{uncharged_failures}
use msrouter.Chain.{
  Upstream, State, on_answer, charge, after_failure, settle, attempt_once, pin_behavior, pin_entry,
  run_single,
}
use msrouter.Chain.Closed.{StepKeeps, run_single-Keeps}

demote-absent : (a : ℕ) (q : RotationQueue ℕ) → contains a q.order ≡ false → demote a q ≡ q
unfolding demote
demote-absent a q h = elim (Option-cases (index_of a q.order)) [
  | inl gone ↦ ground arith
  | inr (i, at) ↦ cc (h, (index_of-some a q.order i at).0)
]

module _ {R : Type 0} (u : Upstream R) (c : ResolvedConfig) (entry_of : ℕ → RoutingEntry)
    (detached : ℕ) (q : RotationQueue ℕ) (absent : contains detached q.order ≡ false) where
  open u use {now}

  abbrev Untouched : State u → Type 0
  Untouched s = s.queue ≡ q

  on_answer-Untouched :
      (x : RoutingEntry) (s : State u)
      → Untouched s
      → Untouched (on_answer u c entry_of detached x s)
  unfolding on_answer
  on_answer-Untouched x s h =
      elim (Bool-cases
        (is_local_tail x.provider && leb c.env.success_demote_limit (s.successes x.label + 1))) [
          | inl full ↦ rw (full, h) (demote-absent detached q absent)
          | inr more ↦ rw more h
        ]

  charge-Untouched :
      (x : RoutingEntry) (model : Text) (res : AttemptOutcome) (s : State u)
      → Untouched s
      → Untouched (charge u c entry_of detached x model pin_behavior res s)
  unfolding charge is_walk
  charge-Untouched x model res s h =
      ap (λ m. m.1)
        (uncharged_failures entry_of _ _ detached x pin_behavior model res s.queue
          (inl (refl, refl)))
      ∙ h

  after_failure-Untouched :
      (last : Bool) (n : ℕ) (x : RoutingEntry) (model : Text) (res : AttemptOutcome) (k : Kind)
      (s : State u)
      → Untouched s
      → Untouched (after_failure u c entry_of last n detached x model pin_behavior res k s).1
  unfolding after_failure
  after_failure-Untouched true n x model res transient s h = charge-Untouched x model res s h
  after_failure-Untouched false n x model res transient s h = h
  after_failure-Untouched last n x model res key_failure s h = charge-Untouched x model res s h
  after_failure-Untouched last n x model res bad_request s h = charge-Untouched x model res s h

  settle-Untouched :
      (last : Bool) (n : ℕ) (x : RoutingEntry) (model : Text) (m : CallResult R) (s : State u)
      → Untouched s
      → Untouched (settle u c entry_of last n detached x model pin_behavior m s).1
  unfolding settle
  settle-Untouched last n x model (answer response resolved) s h = on_answer-Untouched x s h
  settle-Untouched last n x model (failed res) s h =
      after_failure-Untouched last n x model res res.kind _ h

  attempt-Untouched :
      (x : RoutingEntry) (model : Text)
      → StepKeeps u c entry_of Untouched (λ _. Unit {0}) detached x model pin_behavior
  unfolding attempt_once
  attempt-Untouched x model last n s on live early h =
      (settle-Untouched last n x model _ _ h, λ r e. tt)

-- A pinned request, whatever its outcome, leaves the queue exactly as it was, order and cooldown
-- windows included, given that its entries are no objects of the queue.
pub run_single-queue :
    {R : Type 0} (u : Upstream R) (c : ResolvedConfig) (entry_of : ℕ → RoutingEntry) (detached : ℕ)
    (p : ProviderId) (model : Text) (s : State u)
    → contains detached s.queue.order ≡ false
    → (run_single u c entry_of detached p model s).1.queue ≡ s.queue
run_single-queue u c entry_of detached p model s absent =
    (run_single-Keeps u c entry_of (Untouched u c entry_of detached s.queue absent) (λ _. Unit {0})
      (λ t l h. h) detached p model
      (λ i. attempt-Untouched u c entry_of detached s.queue absent (pin_entry p model i) model) s
      refl).0

-- ===== src/Chain/Laws.antt =====
-- What a call of the chain does to the queue, and whose answer it returns: `handle`,
-- src/providers/chain.ts.
use mathlib.Core.List.Perm
use native.Mathlib.Nat.{le_refl}
use msrouter.Prelude.{
  ℕ, ◌+◌, ◌≡◌, inl, inr, Bool, true, false, ◌&&◌, Option, none, some, List, Perm, nat_eq, text_eq,
  contains, leb, Text, Bool-cases, Option-cases,
}
use msrouter.Provider.{RoutingEntry}
use msrouter.Provider.Ids.{ProviderId, provider_eq, is_local_tail}
use msrouter.Provider.Status.{
  Kind, key_failure, transient, bad_request, AttemptOutcome, CallResult, answer, failed,
}
use msrouter.Rotation.Order.{demote-perm}
use msrouter.Rotation.Parking.{eligible_sweeps}
use msrouter.Routing.Extras.{ResolvedConfig}
use msrouter.Routing.Pins.{Pin, short_circuit}
use msrouter.Failure.{Behavior}
use msrouter.Failure.Effects.{apply_failure_axes-perm}
use msrouter.Chain.{
  Upstream, Outcome, State, on_answer, after_failure, settle, attempt_once, iterate, pin_behavior,
  pin_entry, run_single, explicit_model, handle,
}
use msrouter.Chain.Closed.{StepKeeps, iterate-Keeps, run_single-Keeps}

module _ {R : Type 0} (u : Upstream R) (c : ResolvedConfig) (entry_of : ℕ → RoutingEntry) where
  open u use {World, now, aborted, attempt, backoff}

  on_answer-perm :
      (ref : ℕ) (x : RoutingEntry) (s : State u)
      → Perm (on_answer u c entry_of ref x s).queue.order s.queue.order
  unfolding on_answer
  on_answer-perm ref x s =
      elim (Bool-cases
        (is_local_tail x.provider && leb c.env.success_demote_limit (s.successes x.label + 1))) [
          | inl full ↦ rw full (demote-perm ref s.queue)
          | inr more ↦ rw more Perm.rfl
        ]

  after_failure-perm :
      (last : Bool) (n ref : ℕ) (x : RoutingEntry) (model : Text) (behavior : Behavior)
      (res : AttemptOutcome) (k : Kind) (s : State u)
      → Perm
          (after_failure u c entry_of last n ref x model behavior res k s).1.queue.order
          s.queue.order
  unfolding after_failure
  after_failure-perm true n ref x model behavior res transient s =
      apply_failure_axes-perm entry_of _ _ ref x behavior model res s.queue
  after_failure-perm false n ref x model behavior res transient s = Perm.rfl
  after_failure-perm last n ref x model behavior res key_failure s =
      apply_failure_axes-perm entry_of _ _ ref x behavior model res s.queue
  after_failure-perm last n ref x model behavior res bad_request s =
      apply_failure_axes-perm entry_of _ _ ref x behavior model res s.queue

  settle-perm :
      (last : Bool) (n ref : ℕ) (x : RoutingEntry) (model : Text) (behavior : Behavior)
      (m : CallResult R) (s : State u)
      → Perm (settle u c entry_of last n ref x model behavior m s).1.queue.order s.queue.order
  unfolding settle
  settle-perm last n ref x model behavior (answer response resolved) s = on_answer-perm ref x s
  settle-perm last n ref x model behavior (failed res) s =
      after_failure-perm last n ref x model behavior res res.kind _

  -- The entries that the chain was built with, as often as it was built with them.
  abbrev pub Same : List ℕ → State u → Type 0
  Same order s = Perm s.queue.order order

  pub attempt-Same :
      (order : List ℕ) (ref : ℕ) (x : RoutingEntry) (model : Text) (behavior : Behavior)
      → StepKeeps u c entry_of (Same order) (λ _. Unit {0}) ref x model behavior
  unfolding attempt_once
  attempt-Same order ref x model behavior last n s on live early h =
      (Perm.trans (settle-perm last n ref x model behavior _ _) h, λ r e. tt)

  iterate-perm :
      (explicit : Option Text) (s : State u)
      → Perm (iterate u c entry_of explicit s).1.queue.order s.queue.order
  iterate-perm explicit s =
      (iterate-Keeps u c entry_of (Same s.queue.order) (λ _. Unit {0}) (λ t l h. h) explicit s
        (λ t h. rw (eligible_sweeps (now t.world) (now t.world) 0 t.queue (le_refl _)).1 h)
        (λ ref. attempt-Same s.queue.order ref (entry_of ref) _ _) Perm.rfl).0

  run_single-perm :
      (detached : ℕ) (p : ProviderId) (model : Text) (s : State u)
      → Perm (run_single u c entry_of detached p model s).1.queue.order s.queue.order
  run_single-perm detached p model s =
      (run_single-Keeps u c entry_of (Same s.queue.order) (λ _. Unit {0}) (λ t l h. h) detached p
        model (λ i. attempt-Same s.queue.order detached (pin_entry p model i) model pin_behavior) s
        Perm.rfl).0

  -- A request is a walk, with or without an explicit model, or a pin.
  pub handle_cases {κ} :
      (Q : Outcome R × State u → Type κ) (detached : ℕ) (requested : Text) (s : State u)
      → ((explicit : Option Text) → Q (iterate u c entry_of explicit s))
      → ((pin : Pin)
          → contains requested c.env.walk_alias ≡ false
          → short_circuit c.env requested ≡ some pin
          → Q (run_single u c entry_of detached pin.provider pin.model s))
      → Q (handle u c entry_of detached requested s)
  unfolding handle
  handle_cases Q detached requested s walks pins =
      elim (Bool-cases (contains requested c.env.walk_alias)) [
        | inl alias ↦ rw alias (walks none)
        | inr other ↦ elim (Option-cases (short_circuit c.env requested)) [
          | inl e ↦ rw (other, e) (walks (some (explicit_model c.env requested)))
          | inr (pin, e) ↦ rw (other, e) (pins pin other e)
        ]
      ]

  -- Serving a request, however it ends, reorders the queue and never loses or duplicates an entry.
  pub handle-perm :
      (detached : ℕ) (requested : Text) (s : State u)
      → Perm (handle u c entry_of detached requested s).1.queue.order s.queue.order
  handle-perm detached requested s =
      handle_cases (λ m. Perm m.1.queue.order s.queue.order) detached requested s
        (λ explicit. iterate-perm explicit s)
        (λ pin _ _. run_single-perm detached pin.provider pin.model s)

-- ===== src/Chain/Fallback.antt =====
-- The fallback: a walk reaches a local provider that answers. `iterate`, src/providers/chain.ts.
use mathlib.Core.List.Perm
use native.Mathlib.Nat.{le_refl}
use msrouter.Prelude.{
  Perm, length-perm, ℕ, ◌<◌, ◌≡◌, ◌⊎◌, refl, ap, ◌∙◌, inl, inr, true, false, not, Option, List, [],
  arith, nat_eq, lt→ltb, contains, contains-keep, contains-perm, length, Text, Bool-cases,
}
use msrouter.Provider.{RoutingEntry}
use msrouter.Provider.Ids.{ProviderId, provider_eq, is_local_tail}
use msrouter.Provider.Status.{answer}
use msrouter.Rotation.{RotationQueue, eligible, snapshot, size, is_parked, live}
use msrouter.Rotation.Parking.{eligible_cases, eligible_sweeps, contains-live}
use msrouter.Routing.Extras.{ResolvedConfig}
use msrouter.Failure.{Walk}
use msrouter.Chain.{
  Upstream, Served, ok, PassEnd, pass_served, pass_aborted, exhausted, State, pass, finish,
  second_pass, iterate,
}
use msrouter.Chain.Closed.{pass-Keeps}
use msrouter.Chain.Laws.{Same, attempt-Same}
use msrouter.Chain.Skipping.{length-keep-lt}
use msrouter.Chain.Passes.{Serves, Ends, pass-up, pass-Ends}

module _ {R : Type 0} (u : Upstream R) (c : ResolvedConfig) (entry_of : ℕ → RoutingEntry)
    (p : ProviderId) (tail : is_local_tail p ≡ true) (patient : (w : u.World) → u.aborted w ≡ false)
    (up : (model : Text) (key : Option ℕ) (w : u.World)
      → (response : R) × (resolved : Option Text) × ((u.attempt p model key w).0
          ≡ answer response resolved)) where
  open u use {World, now, aborted, attempt}

  second_pass-served :
      (explicit : Option Text) (k : Walk) (order : List ℕ) (m : PassEnd R × State u)
      → Serves u m
      → Serves u (second_pass u c entry_of explicit k order m)
  unfolding second_pass
  second_pass-served explicit k order (pass_served r, s) h = (r, refl)
  second_pass-served explicit k order (pass_aborted, s) h = h
  second_pass-served explicit k order (exhausted, s) (r, e) = cc

  second_pass-up :
      (explicit : Option Text) (k : Walk) (t : ℕ) (order : List ℕ) (m : PassEnd R × State u)
      → (entry_of t).provider ≡ p
      → Ends u m
      → length order < length m.1.queue.order
      → contains t order ≡ false
      → contains t m.1.queue.order ≡ true
      → Serves u (second_pass u c entry_of explicit k order m)
  unfolding second_pass size snapshot
  second_pass-up explicit k t order (pass_served r, s) here ends short out there = (r, refl)
  second_pass-up explicit k t order (pass_aborted, s) here (inl (r, e)) short out there = cc
  second_pass-up explicit k t order (pass_aborted, s) here (inr e) short out there = cc
  second_pass-up explicit k t order (exhausted, s) here ends short out there =
      rw (lt→ltb (length order) (length s.queue.order) short) (
        pass-up u c entry_of p tail patient up explicit k t _ s here
          (contains-keep (λ e. not (contains e order)) t s.queue.order ∙ rw (there, out)))

  finish-up :
      (m : PassEnd R × State u) → Serves u m → (r : Served R) × ((finish u c entry_of m).0 ≡ ok r)
  finish-up (pass_served r, s) h = (r, refl)
  finish-up (pass_aborted, s) (r, e) = cc
  finish-up (exhausted, s) (r, e) = cc

  -- The queue after the first pass, entry for entry.
  first_pass-queue :
      (explicit : Option Text) (k : Walk) (order : List ℕ) (s : State u)
      → Perm (pass u c entry_of explicit k order s).1.queue.order s.queue.order
  first_pass-queue explicit k order s =
      (pass-Keeps u c entry_of (Same u c entry_of s.queue.order) (λ _. Unit {0}) (λ t l h. h)
        explicit k (λ ref. attempt-Same u c entry_of s.queue.order ref (entry_of ref) _ _) order s
        Perm.rfl).0

  both_passes-up :
      (explicit : Option Text) (k : Walk) (t : ℕ) (order : List ℕ) (s : State u)
      → (entry_of t).provider ≡ p
      → contains t s.queue.order ≡ true
      → (contains t order ≡ true)
        ⊎ ((contains t order ≡ false) × (length order < length s.queue.order))
      → Serves u (second_pass u c entry_of explicit k order (pass u c entry_of explicit k order s))
  both_passes-up explicit k t order s here there (inl first) =
      second_pass-served explicit k order _
        (pass-up u c entry_of p tail patient up explicit k t order s here first)
  both_passes-up explicit k t order s here there (inr (out, short)) =
      let same = first_pass-queue explicit k order s in
      second_pass-up explicit k t order _ here
        (pass-Ends u c entry_of p tail patient up explicit k order s)
        (omega (arith, length-perm _ _ same, short)) out
        (contains-perm t _ _ (Perm.symm same) there)

  eligible-split :
      (n t : ℕ) (q : RotationQueue ℕ)
      → contains t q.order ≡ true
      → (contains t (eligible n q).0 ≡ true)
        ⊎ ((contains t (eligible n q).0 ≡ false) × (length (eligible n q).0 < length q.order))
  unfolding live
  eligible-split n t q there = elim (eligible_cases n q) [
    | inl all ↦ inl (ap (contains t) all ∙ there)
    | inr some_live ↦ elim (Bool-cases (is_parked n t q)) [
      | inl parked ↦ inr (
        rw (some_live, contains-live n t q, there, parked) refl,
        rw some_live (live-lt n t q there parked),
      )
      | inr free ↦ inl (rw (some_live, contains-live n t q, there, free) refl)
    ]
  ]
    where
      live-lt :
          (n t : ℕ) (q : RotationQueue ℕ)
          → contains t q.order ≡ true
          → is_parked n t q ≡ true
          → length (live n q) < length q.order
      live-lt n t q there parked =
          length-keep-lt (λ x. not (is_parked n x q)) t q.order there (rw parked)

  -- A walk always reaches the local tail: while a provider of the local tail with an entry in the queue
  -- answers every call, and the caller does not abort, a walk returns an answer, whatever the other
  -- providers do, whatever is parked, and however late it is.
  pub local_tail_answers :
      (explicit : Option Text) (t : ℕ) (s : State u)
      → (entry_of t).provider ≡ p
      → contains t s.queue.order ≡ true
      → (r : Served R) × ((iterate u c entry_of explicit s).0 ≡ ok r)
  unfolding iterate
  local_tail_answers explicit t s here there =
      let k : Walk = record { started_at = now s.world; deadline_ms = c.env.walk_deadline_ms } in
      let order = (eligible (now s.world) s.queue).0 in
      let swept : State u = record s {
        queue = (eligible (now s.world) s.queue).1;
        failures = [];
      } in
      let same = (eligible_sweeps (now s.world) (now s.world) 0 s.queue (le_refl _)).1 in
      finish-up
        (second_pass u c entry_of explicit k order (pass u c entry_of explicit k order swept))
        (both_passes-up explicit k t order swept here (ap (contains t) same ∙ there) (
          split-swept t order s.queue.order swept.queue.order same
            (eligible-split (now s.world) t s.queue there)))
    where
      split-swept :
          (t : ℕ) (order xs ys : List ℕ)
          → ys ≡ xs
          → (contains t order ≡ true) ⊎ ((contains t order ≡ false) × (length order < length xs))
          → (contains t order ≡ true) ⊎ ((contains t order ≡ false) × (length order < length ys))
      split-swept t order xs ys e h = rw e h

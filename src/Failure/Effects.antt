-- ===== src/Failure/Effects.antt =====
-- What a classified failure does to the queue: `applyFailureAxes`, src/providers/failure-axes.ts.
use mathlib.Core.List.Perm
use msrouter.Prelude.{
  ℕ, ◌+◌, ◌<◌, ◌≡◌, ◌≢◌, refl, ap, ◌∙◌, inl, inr, Bool, true, false, ◌&&◌, ◌⊎◌, List, [], ◌∷◌, Perm,
  arith, ◌==◌, nat_eq, text_eq, text_beq_iff, ltb, lt→ltb, if◌then◌else◌, contains, Text,
  Bool-cases, beq-false,
}
use msrouter.Provider.{RoutingEntry}
use msrouter.Provider.Ids.{provider_eq}
use msrouter.Provider.Status.{Kind, key_failure, transient, bad_request, AttemptOutcome}
use msrouter.Rotation.{RotationQueue, is_parked, snapshot, demote, park}
use msrouter.Rotation.Order.{demote-perm, contains-demote}
use msrouter.Rotation.Parking.{park-order, is_parked-park, is_parked-demote}
use msrouter.Failure.{
  Behavior, is_walk, is_entry_level, Action, demote_only, demote_and_park, for_each_if, act,
  same_provider, same_model, model_disabled_cooldown_ms, propagate_provider_axis, demote_model_axis,
  disable_model_axis, failure_axes, apply_failure_axes,
}
use msrouter.Failure.Axes.{
  moved_back, act-order, for_each_if-order, for_each_if-perm, for_each_if-is_parked,
}

park-perm : (now ms e : ℕ) (q : RotationQueue ℕ) → Perm (park now e ms q).order q.order
park-perm now ms e q = rw (park-order now e ms q) Perm.rfl

act-perm : (now : ℕ) (a : Action) (e : ℕ) (q : RotationQueue ℕ) → Perm (act now a e q).order q.order
act-perm now a e q = rw (act-order now a e q) (demote-perm e q)

contains-act :
    (now : ℕ) (a : Action) (x e : ℕ) (q : RotationQueue ℕ)
    → contains x (act now a e q).order ≡ contains x q.order
contains-act now a x e q = ap (contains x) (act-order now a e q) ∙ contains-demote x e q

is_parked-act :
    (now later ms e b : ℕ) (q : RotationQueue ℕ)
    → contains e q.order ≡ true
    → is_parked later b (act now (demote_and_park ms) e q)
      ≡ (if e == b then ltb later (now + ms) else is_parked later b q)
unfolding act
is_parked-act now later ms e b q h =
    is_parked-park now later e b ms (demote e q)
    ∙ rw (contains-demote e e q, h, is_parked-demote later e b q)

act_only-is_parked :
    (now later e b : ℕ) (q : RotationQueue ℕ)
    → is_parked later b (act now demote_only e q) ≡ is_parked later b q
unfolding act
act_only-is_parked now later e b q = is_parked-demote later e b q

-- A sweep of steps that leave an item's window leaves it.
for_each_if-keeps :
    (later b : ℕ) (test : ℕ → Bool) (f : ℕ → RotationQueue ℕ → RotationQueue ℕ)
    → ((e : ℕ) (q : RotationQueue ℕ) → is_parked later b (f e q) ≡ is_parked later b q)
    → (es : List ℕ) (q : RotationQueue ℕ)
    → is_parked later b (for_each_if test f es q) ≡ is_parked later b q
unfolding for_each_if
for_each_if-keeps later b test f h [] q = refl
for_each_if-keeps later b test f h (e ∷ es) q =
    for_each_if-keeps later b test f h es (if test e then f e q else q) ∙ ground (arith, h e q)

module _ (entry_of : ℕ → RoutingEntry) (cooldown now ref : ℕ) (x : RoutingEntry)
    (behavior : Behavior) (dispatched : Text) where
  abbrev apply : AttemptOutcome → RotationQueue ℕ → RotationQueue ℕ
  apply res q = (apply_failure_axes entry_of cooldown now ref x behavior dispatched res q).1

  propagate-perm :
      (a : Action) (q : RotationQueue ℕ)
      → Perm (propagate_provider_axis entry_of now ref x a q).order q.order
  unfolding propagate_provider_axis
  propagate-perm a q = elim (Bool-cases (is_entry_level x.provider)) [
    | inl single ↦ rw single (act-perm now a ref q)
    | inr account ↦
        rw account
          (for_each_if-perm (same_provider entry_of x) (act now a) (act-perm now a) (snapshot q) q)
  ]

  disable-perm : (q : RotationQueue ℕ) → Perm (disable_model_axis entry_of now x q).order q.order
  unfolding disable_model_axis
  disable-perm q =
      for_each_if-perm (same_model entry_of x) (λ e. park now e model_disabled_cooldown_ms)
        (park-perm now model_disabled_cooldown_ms) q.order q

  model-perm : (q : RotationQueue ℕ) → Perm (demote_model_axis entry_of x q).order q.order
  unfolding demote_model_axis
  model-perm q = for_each_if-perm (same_model entry_of x) demote demote-perm q.order q

  -- Whatever the failure, no entry is lost or duplicated.
  pub apply_failure_axes-perm :
      (res : AttemptOutcome) (q : RotationQueue ℕ) → Perm (apply res q).order q.order
  unfolding apply_failure_axes
  apply_failure_axes-perm res q = go res.kind
    where
      go :
          (k : Kind)
          → Perm
              (failure_axes entry_of cooldown now ref x behavior dispatched k res.status q).1.order
              q.order
      go key_failure = elim (Bool-cases behavior.demote_on_key_failure) [
        | inl on ↦ rw on (propagate-perm _ q)
        | inr off ↦ rw off Perm.rfl
      ]
      go transient = elim (Bool-cases (is_walk behavior)) [
        | inl on ↦ rw on (demote-perm ref q)
        | inr off ↦ rw off Perm.rfl
      ]
      go bad_request = elim (Bool-cases (is_walk behavior && dispatched == x.model)) [
        | inl on ↦ elim (Bool-cases (res.status == 404)) [
          | inl gone ↦ rw (on, gone) (disable-perm q)
          | inr other ↦ rw (on, other) (model-perm q)
        ]
        | inr off ↦ rw off Perm.rfl
      ]

  -- A rate limit (429) that is charged (`demoteOnKeyFailure`), with a positive cooldown, to a provider
  -- with one quota parks the whole account: every entry of the provider is set aside for the cooldown
  -- and moved behind the others, in place among themselves; no other entry's window changes.
  pub rate_limit_parks_account :
      (res : AttemptOutcome) (q : RotationQueue ℕ)
      → behavior.demote_on_key_failure ≡ true
      → is_entry_level x.provider ≡ false
      → res.kind ≡ key_failure
      → res.status ≡ 429
      → 0 < cooldown
      → ((apply res q).order ≡ moved_back (same_provider entry_of x) q.order)
        × ((later b : ℕ)
            → is_parked later b (apply res q) ≡ (
                if contains b q.order && same_provider entry_of x b
                then ltb later (now + cooldown)
                else is_parked later b q))
  unfolding apply_failure_axes propagate_provider_axis
  rate_limit_parks_account res q on account key limited positive =
      rw (key, on, limited, lt→ltb 0 cooldown positive, account)
        (
          for_each_if-order (same_provider entry_of x) (act now (demote_and_park cooldown))
              (act-order now (demote_and_park cooldown)) q,
          λ later b.
              for_each_if-is_parked now later cooldown (same_provider entry_of x)
                (act now (demote_and_park cooldown)) (contains-act now (demote_and_park cooldown))
                (is_parked-act now later cooldown) q.order q b (λ y c. c),
        )

  -- A rate limit (429) that is charged (`demoteOnKeyFailure`), with a positive cooldown, to an entry of
  -- the queue whose provider has a quota for each key demotes that entry alone, and parks it alone for
  -- the cooldown.
  rate_limit_parks_key :
      (res : AttemptOutcome) (q : RotationQueue ℕ)
      → behavior.demote_on_key_failure ≡ true
      → is_entry_level x.provider ≡ true
      → contains ref q.order ≡ true
      → res.kind ≡ key_failure
      → res.status ≡ 429
      → 0 < cooldown
      → ((apply res q).order ≡ (demote ref q).order)
        × ((later b : ℕ)
            → is_parked later b (apply res q)
              ≡ (if ref == b then ltb later (now + cooldown) else is_parked later b q))
  unfolding apply_failure_axes propagate_provider_axis
  rate_limit_parks_key res q on single there key limited positive =
      rw (key, on, limited, lt→ltb 0 cooldown positive, single)
        (
          act-order now (demote_and_park cooldown) ref q,
          λ later b. is_parked-act now later cooldown ref b q there,
        )

  disabled_order :
      (es : List ℕ) (q : RotationQueue ℕ)
      → (for_each_if
          (same_model entry_of x)
          (λ e. park now e model_disabled_cooldown_ms)
          es
          q).order
        ≡ q.order
  unfolding for_each_if
  disabled_order [] q = refl
  disabled_order (e ∷ es) q =
      disabled_order es _ ∙ ground (arith, park-order now e model_disabled_cooldown_ms q)

  bad_request-gone :
      (status : ℕ) (q : RotationQueue ℕ)
      → is_walk behavior ≡ true
      → dispatched ≡ x.model
      → status ≡ 404
      → (failure_axes entry_of cooldown now ref x behavior dispatched bad_request status q).1
        ≡ disable_model_axis entry_of now x q
  unfolding failure_axes
  bad_request-gone status q walking own gone =
      rw (walking, (text_beq_iff dispatched x.model).1 own, gone)

  apply-gone :
      (res : AttemptOutcome) (q : RotationQueue ℕ)
      → is_walk behavior ≡ true
      → dispatched ≡ x.model
      → res.kind ≡ bad_request
      → res.status ≡ 404
      → apply res q ≡ disable_model_axis entry_of now x q
  unfolding apply_failure_axes
  apply-gone res q walking own bad gone =
      ap (λ k. (failure_axes entry_of cooldown now ref x behavior dispatched k res.status q).1) bad
      ∙ bad_request-gone res.status q walking own gone

  -- A 404 for an entry's own model on a walk disables that model on every key of the provider for a
  -- day, and nothing else: the order and all other windows stay.
  model_gone_disables :
      (res : AttemptOutcome) (q : RotationQueue ℕ)
      → is_walk behavior ≡ true
      → dispatched ≡ x.model
      → res.kind ≡ bad_request
      → res.status ≡ 404
      → ((apply res q).order ≡ q.order)
        × ((later b : ℕ)
            → is_parked later b (apply res q) ≡ (
                if contains b q.order && same_model entry_of x b
                then ltb later (now + model_disabled_cooldown_ms)
                else is_parked later b q))
  unfolding disable_model_axis
  model_gone_disables res q walking own bad gone =
      let e = apply-gone res q walking own bad gone in
      (
        ap (λ r. r.order) e ∙ disabled_order q.order q,
        λ later b.
            ap (is_parked later b) e
            ∙ for_each_if-is_parked now later model_disabled_cooldown_ms (same_model entry_of x)
                (λ e. park now e model_disabled_cooldown_ms)
                (λ y e r. ap (contains y) (park-order now e model_disabled_cooldown_ms r))
                (λ e c r h. is_parked-park now later e c model_disabled_cooldown_ms r ∙ rw h)
                q.order q b (λ y c. c),
      )

  propagate_only-is_parked :
      (later b : ℕ) (q : RotationQueue ℕ)
      → is_parked later b (propagate_provider_axis entry_of now ref x demote_only q)
        ≡ is_parked later b q
  unfolding propagate_provider_axis
  propagate_only-is_parked later b q = ground (
    arith,
    act_only-is_parked now later ref b q,
    for_each_if-keeps later b (same_provider entry_of x) (act now demote_only)
        (λ e r. act_only-is_parked now later e b r) q.order q,
  )

  model-is_parked :
      (later b : ℕ) (q : RotationQueue ℕ)
      → is_parked later b (demote_model_axis entry_of x q) ≡ is_parked later b q
  unfolding demote_model_axis
  model-is_parked later b q =
      for_each_if-keeps later b (same_model entry_of x) demote (λ e r. is_parked-demote later e b r)
        q.order q

  -- No other failure parks anything: unless the status is 429 or 404 every window stays.
  other_failures_park_nothing :
      (res : AttemptOutcome) (q : RotationQueue ℕ) (later b : ℕ)
      → res.status ≢ 429
      → res.status ≢ 404
      → is_parked later b (apply res q) ≡ is_parked later b q
  unfolding apply_failure_axes
  other_failures_park_nothing res q later b n429 n404 =
      go res.kind (beq-false res.status 429 n429) (beq-false res.status 404 n404)
    where
      go :
          (k : Kind)
          → (res.status == 429) ≡ false
          → (res.status == 404) ≡ false
          → is_parked later b
              (failure_axes entry_of cooldown now ref x behavior dispatched k res.status q).1
            ≡ is_parked later b q
      go key_failure a c = elim (Bool-cases behavior.demote_on_key_failure) [
        | inl on ↦ rw (on, a) (propagate_only-is_parked later b q)
        | inr off ↦ rw off
      ]
      go transient a c = ground (arith, is_parked-demote later ref b q)
      go bad_request a c = ground (arith, model-is_parked later b q)

  -- A failure is charged to no entry when the walk asked for another model than the entry's own and
  -- got a bad request, or when the entry was pinned (neither demoting nor on a walk).
  pub uncharged_failures :
      (res : AttemptOutcome) (q : RotationQueue ℕ)
      → ((behavior.demote_on_key_failure ≡ false) × (is_walk behavior ≡ false))
        ⊎ ((res.kind ≡ bad_request) × (dispatched ≢ x.model))
      → apply_failure_axes entry_of cooldown now ref x behavior dispatched res q ≡ (0, q)
  unfolding apply_failure_axes
  uncharged_failures res q h = go res.kind h
    where
      go :
          (k : Kind)
          → ((behavior.demote_on_key_failure ≡ false) × (is_walk behavior ≡ false))
            ⊎ ((k ≡ bad_request) × (dispatched ≢ x.model))
          → failure_axes entry_of cooldown now ref x behavior dispatched k res.status q ≡ (0, q)
      go key_failure (inl (off, pinned)) = rw off
      go transient (inl (off, pinned)) = rw pinned
      go bad_request (inl (off, pinned)) = rw pinned
      go bad_request (inr (_, other)) = ground (arith, beq-false dispatched x.model other)
      go key_failure (inr (e, other)) = cc
      go transient (inr (e, other)) = cc

-- ===== src/Chain/Answers.antt =====
-- Whose answer the chain returns: src/providers/chain.ts.
use msrouter.Prelude.{ℕ, ◌≡◌, ◌⊎◌, some, refl, Bool, true, false, Option, arith, text_eq, Text}
use msrouter.Provider.{RoutingEntry}
use msrouter.Provider.Ids.{ProviderId}
use msrouter.Provider.Status.{
  Kind, key_failure, transient, bad_request, AttemptOutcome, CallResult, answer, failed,
}
use msrouter.Routing.Extras.{ResolvedConfig, available}
use msrouter.Failure.{Behavior}
use msrouter.Chain.{
  Upstream, Served, ok, served, State, dispatch_provider, served_by_model, resolved_or,
  after_failure, settle, attempt_once, pin_entry, run_single,
}
use msrouter.Routing.Pins.{Pin, short_circuit}
use msrouter.Chain.Closed.{StepKeeps, run_single-Keeps}

module _ {R : Type 0} (u : Upstream R) where
  open u use {World, aborted}

  -- The response is what one call of a configured provider returned, made while the caller had not
  -- aborted, and the labels name that call's entry and model.
  pub record Genuine (c : ResolvedConfig) (r : Served R) : Type 0 where
    pub entry : RoutingEntry
    pub model : Text
    pub world : World
    pub resolved : Option Text
    pub live : aborted world ≡ false
    pub configured : available c entry.provider ≡ true
    pub answered : (dispatch_provider u entry model world).0 ≡ answer r.response resolved
    pub provider_label : r.provider ≡ entry.label
    pub model_label : r.model ≡ served_by_model entry (resolved_or model resolved)

module _ {R : Type 0} (u : Upstream R) (c : ResolvedConfig) (entry_of : ℕ → RoutingEntry) where
  open u use {World, aborted}

  after_failure-not_served :
      (last : Bool) (n ref : ℕ) (x : RoutingEntry) (model : Text) (behavior : Behavior)
      (res : AttemptOutcome) (k : Kind) (s : State u) (r : Served R)
      → (after_failure u c entry_of last n ref x model behavior res k s).0 ≡ served r
      → ⊥
  unfolding after_failure
  after_failure-not_served true n ref x model behavior res transient s r e = cc
  after_failure-not_served false n ref x model behavior res transient s r e = cc
  after_failure-not_served last n ref x model behavior res key_failure s r e = cc
  after_failure-not_served last n ref x model behavior res bad_request s r e = cc

  settle-served :
      (last : Bool) (n ref : ℕ) (x : RoutingEntry) (model : Text) (behavior : Behavior)
      (m : CallResult R) (s : State u) (r : Served R)
      → (settle u c entry_of last n ref x model behavior m s).0 ≡ served r
      → (resolved : Option Text) × (m ≡ answer r.response resolved)
        × (r.provider ≡ x.label)
        × (r.model ≡ served_by_model x (resolved_or model resolved))
  unfolding settle
  settle-served last n ref x model behavior (answer response resolved) s r e =
      (resolved, cc, ground arith, ground arith)
  settle-served last n ref x model behavior (failed res) s r e =
      absurd (after_failure-not_served last n ref x model behavior res res.kind _ r e)

  -- with what every entry tried is known to have
  attempt-Genuine :
      (A : RoutingEntry → Text → Type 0) (ref : ℕ) (x : RoutingEntry) (model : Text)
      (behavior : Behavior)
      → A x model
      → StepKeeps u c entry_of
          (λ _. Unit {0})
          (λ r. (g : Genuine u c r) × A g.entry g.model)
          ref
          x
          model
          behavior
  unfolding attempt_once
  attempt-Genuine A ref x model behavior a last n s on live early h = (
    tt,
    λ r e.
        let (resolved, answered, provider, name) =
          settle-served last n ref x model behavior _ _ r e in
        (
          record {
            entry = x;
            model = model;
            world = s.world;
            resolved = resolved;
            live = live;
            configured = on;
            answered = answered;
            provider_label = provider;
            model_label = name;
          },
          a,
        ),
  )

  -- An entry and a model that a request may be sent to: one of the routing entries as it stands or,
  -- for a request that is pinned, an entry made for its pin, and the pin's model.
  abbrev pub Asked : Text → RoutingEntry → Text → Type 0
  Asked requested x model =
      ((ref : ℕ) × (x ≡ entry_of ref))
      ⊎ ((pin : Pin) × (short_circuit c.env requested ≡ some pin)
          × (model ≡ pin.model)
          × ((i : ℕ) × (x ≡ pin_entry pin.provider pin.model i)))

  -- A pinned request is answered by the pinned provider or not at all.
  pub pin_no_fallback :
      (detached : ℕ) (p : ProviderId) (model : Text) (s : State u) (r : Served R)
      → (run_single u c entry_of detached p model s).0 ≡ ok r
      → (g : Genuine u c r) × (g.entry.provider ≡ p)
  pin_no_fallback detached p model s r e =
      (run_single-Keeps u c entry_of (λ _. Unit {0}) _ (λ t l h. tt) detached p model
          (λ i. attempt-Genuine (λ x _. x.provider ≡ p) detached (pin_entry p model i) _ _ refl) s
          tt).1
        r e

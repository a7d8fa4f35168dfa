-- ===== src/Chain/Passes.antt =====
-- One pass over the entries, while a local provider answers: `tryEntry` and `pass`,
-- src/providers/chain.ts.
use msrouter.Prelude.{
  ℕ, zero, suc, ◌≡◌, ◌⊎◌, refl, ap, ◌∙◌, inl, inr, Bool, true, false, ◌||◌, Option, none, some,
  List, [], ◌∷◌, arith, ◌==◌, nat_eq, nat_beq_iff, if◌then◌else◌, contains, Text, Bool-cases,
}
use msrouter.Provider.{RoutingEntry}
use msrouter.Provider.Ids.{
  ProviderId, local, lmstudio, laptop, openrouter, provider_eq, same_id_iff, is_local_tail,
}
use msrouter.Provider.Status.{CallResult, answer, failed}
use msrouter.Routing.Extras.{ResolvedConfig, available}
use msrouter.Failure.{Walk, Behavior, Skipper, new_skipper, should_skip, on_attempt_failed}
use msrouter.Chain.{
  Upstream, Served, served_by_model, resolved_or, Attempted, served, retry, given_up, PassEnd,
  pass_served, pass_aborted, exhausted, is_over_walk_deadline, State, dispatch_provider, settle,
  attempt_once, after_round, try_loop, try_entry, model_for, walk_behavior, or_go_on, pass_loop,
  pass,
}
use msrouter.Chain.Skipping.{Spares, not_skipped, on_attempt_failed-Spares}

-- A provider of the local tail is always configured.
local_available :
    (c : ResolvedConfig) (p : ProviderId) → is_local_tail p ≡ true → available c p ≡ true
unfolding available is_local_tail
local_available c local h = refl
local_available c lmstudio h = refl
local_available c laptop h = refl
local_available c openrouter h = cc
local_available c _ h = cc

-- Its first attempt is never over the deadline.
local_not_over :
    (x : RoutingEntry) (k : Walk) (now : ℕ)
    → is_local_tail x.provider ≡ true
    → is_over_walk_deadline x k now 0 ≡ false
unfolding is_over_walk_deadline
local_not_over x k now h = ground arith

-- A member of one provider stands behind an entry of another.
contains-later :
    (entry_of : ℕ → RoutingEntry) (p : ProviderId) (t ref : ℕ) (refs : List ℕ)
    → ((entry_of ref).provider == p) ≡ false
    → (entry_of t).provider ≡ p
    → contains t (ref ∷ refs) ≡ true
    → contains t refs ≡ true
contains-later entry_of p t ref refs other here there = elim (Bool-cases (ref == t)) [
  | inl same ↦ absurd (
      cc (
        other,
        ap (λ e. (entry_of e).provider == p) ((nat_beq_iff ref t).0 same),
        (same_id_iff (entry_of t).provider p).1 here,
      ))
  | inr differ ↦ ground arith
]

module _ {R : Type 0} (u : Upstream R) where
  -- A pass that serves, and one that serves or is exhausted.
  abbrev pub Serves : PassEnd R × State u → Type 0
  Serves m = (r : Served R) × (m.0 ≡ pass_served r)

  abbrev pub Ends : PassEnd R × State u → Type 0
  Ends m = Serves m ⊎ (m.0 ≡ exhausted)

module _ {R : Type 0} (u : Upstream R) (c : ResolvedConfig) (entry_of : ℕ → RoutingEntry)
    (p : ProviderId) (tail : is_local_tail p ≡ true) (patient : (w : u.World) → u.aborted w ≡ false)
    (up : (model : Text) (key : Option ℕ) (w : u.World)
      → (response : R) × (resolved : Option Text) × ((u.attempt p model key w).0
          ≡ answer response resolved)) where
  open u use {World, now, aborted, attempt}

  dispatch-up :
      (x : RoutingEntry) (model : Text) (w : World)
      → x.provider ≡ p
      → (response : R) × (resolved : Option Text) × ((dispatch_provider u x model w).0
          ≡ answer response resolved)
  unfolding dispatch_provider
  dispatch-up x model w e = elim (Bool-cases (x.provider == openrouter)) [
    | inl pooled ↦ rw (pooled, e) (up model (some x.attempt_index) w)
    | inr single ↦ rw (single, e) (up model none w)
  ]

  settle-up :
      (last : Bool) (n ref : ℕ) (x : RoutingEntry) (model : Text) (behavior : Behavior)
      (m : CallResult R) (s : State u) (response : R) (resolved : Option Text)
      → m ≡ answer response resolved
      → (r : Served R) × ((settle u c entry_of last n ref x model behavior m s).0 ≡ served r)
  unfolding settle
  settle-up last n ref x model behavior (answer response' resolved') s response resolved e = (
    record {
      response = response';
      provider = x.label;
      model = served_by_model x (resolved_or model resolved');
    },
    refl,
  )
  settle-up last n ref x model behavior (failed o) s response resolved e = absurd cc

  attempt_once-up :
      (last : Bool) (n ref : ℕ) (x : RoutingEntry) (model : Text) (behavior : Behavior)
      (s : State u)
      → x.provider ≡ p
      → (r : Served R) × ((attempt_once u c entry_of last n ref x model behavior s).0 ≡ served r)
  unfolding attempt_once
  attempt_once-up last n ref x model behavior s e =
      let d = dispatch-up x model s.world e in settle-up last n ref x model behavior _ _ d.0 d.1 d.2

  after_round-up :
      (again : State u → Option (Served R) × State u) (m : Attempted R × State u) (r : Served R)
      → m.0 ≡ served r
      → (after_round u c entry_of again m).0 ≡ some r
  unfolding after_round
  after_round-up again (served r', t) r e = ground arith
  after_round-up again (retry, t) r e = cc
  after_round-up again (given_up, t) r e = cc

  try_loop-up :
      (left ref : ℕ) (x : RoutingEntry) (model : Text) (k : Walk) (s : State u)
      → x.provider ≡ p
      → (r : Served R) × ((try_loop u c entry_of left 0 ref x model (walk_behavior k) s).0 ≡ some r)
  unfolding try_loop
  try_loop-up zero ref x model k s e =
      let a = attempt_once-up true 0 ref x model (walk_behavior k) s e in
      rw (patient s.world, local_not_over x k (now s.world) (ap is_local_tail e ∙ tail))
        (a.0, after_round-up _ _ a.0 a.1)
  try_loop-up (suc left) ref x model k s e =
      let a = attempt_once-up false 0 ref x model (walk_behavior k) s e in
      rw (patient s.world, local_not_over x k (now s.world) (ap is_local_tail e ∙ tail))
        (a.0, after_round-up _ _ a.0 a.1)

  try_entry-up :
      (ref : ℕ) (x : RoutingEntry) (model : Text) (k : Walk) (s : State u)
      → x.provider ≡ p
      → (r : Served R) × ((try_entry u c entry_of ref x model (walk_behavior k) s).0 ≡ some r)
  unfolding try_entry
  try_entry-up ref x model k s e =
      rw (local_available c x.provider (ap is_local_tail e ∙ tail))
        (try_loop-up c.env.max_transient_retries ref x model k s e)

  or_go_on-some :
      (go : State u → PassEnd R × State u) (m : Option (Served R) × State u) (r : Served R)
      → m.0 ≡ some r
      → (or_go_on u c entry_of go m).0 ≡ pass_served r
  unfolding or_go_on
  or_go_on-some go (some r', t) r e = ground arith
  or_go_on-some go (none, t) r e = cc

  -- What a pass comes to, once it may go past its first entry.
  module _ {κ} (Q : PassEnd R × State u → Type κ)
      (serves : (r : Served R) (t : State u) → Q (pass_served r, t)) where
    or_go_on-either :
        (go : State u → PassEnd R × State u) (m : Option (Served R) × State u)
        → ((t : State u) → Q (go t))
        → Q (or_go_on u c entry_of go m)
    unfolding or_go_on
    or_go_on-either go (some r, t) h = serves r t
    or_go_on-either go (none, t) h = h t

    choose : (b : Bool) (m m' : PassEnd R × State u) → Q m → Q m' → Q (if b then m else m')
    choose true m m' h h' = h
    choose false m m' h h' = h'

    unaborted :
        (b : Bool) (s : State u) (m : PassEnd R × State u)
        → b ≡ false
        → Q m
        → Q (if b then (pass_aborted, s) else m)
    unaborted true s m e h = cc
    unaborted false s m e h = h

    pass_loop-step :
        (explicit : Option Text) (k : Walk) (ref : ℕ) (refs : List ℕ) (sk : Skipper) (s : State u)
        → Q (pass_loop u c entry_of explicit k refs sk s)
        → ((t : State u)
            → Q (
                pass_loop u c entry_of explicit k refs
                  (on_attempt_failed entry_of (now t.world) ref sk t.queue)
                  t))
        → Q (pass_loop u c entry_of explicit k (ref ∷ refs) sk s)
    unfolding pass_loop
    pass_loop-step explicit k ref refs sk s skipping failing =
        unaborted (aborted s.world) s _ (patient s.world) (
          choose (should_skip ref sk || is_over_walk_deadline (entry_of ref) k (now s.world) 0) _ _
            skipping
            (or_go_on-either _
              (try_entry u c entry_of ref (entry_of ref) (model_for explicit (entry_of ref))
                (walk_behavior k) s)
              failing))

  pass_loop-up :
      (explicit : Option Text) (k : Walk) (t : ℕ) (refs : List ℕ) (sk : Skipper) (s : State u)
      → (entry_of t).provider ≡ p
      → contains t refs ≡ true
      → Spares entry_of p sk
      → Serves u (pass_loop u c entry_of explicit k refs sk s)
  unfolding pass_loop should_skip
  pass_loop-up explicit k t [] sk s here there sp = cc
  pass_loop-up explicit k t (ref ∷ refs) sk s here there sp =
      elim (Bool-cases ((entry_of ref).provider == p)) [
        | inl same ↦
            let e = (same_id_iff (entry_of ref).provider p).0 same in
            let m = try_entry-up ref (entry_of ref) (model_for explicit (entry_of ref)) k s e in
            rw
              (
                patient s.world,
                not_skipped entry_of p ref sk.skipped sp e,
                local_not_over (entry_of ref) k (now s.world) (ap is_local_tail e ∙ tail),
              )
              (m.0, or_go_on-some _ _ m.0 m.1)
        | inr other ↦
            let later = contains-later entry_of p t ref refs other here there in
            pass_loop-step (Serves u) (λ r t'. (r, refl)) explicit k ref refs sk s
              (pass_loop-up explicit k t refs sk s here later sp)
              (λ t'.
                pass_loop-up explicit k t refs _ t' here later
                  (on_attempt_failed-Spares entry_of p (now t'.world) ref sk t'.queue other sp))
      ]

  pub pass-up :
      (explicit : Option Text) (k : Walk) (t : ℕ) (refs : List ℕ) (s : State u)
      → (entry_of t).provider ≡ p
      → contains t refs ≡ true
      → Serves u (pass u c entry_of explicit k refs s)
  unfolding pass new_skipper
  pass-up explicit k t refs s here there = pass_loop-up explicit k t refs _ s here there tt

  -- A pass of a patient caller serves or is exhausted.
  pass_loop-nil :
      (explicit : Option Text) (k : Walk) (sk : Skipper) (s : State u)
      → (pass_loop u c entry_of explicit k [] sk s).0 ≡ exhausted
  unfolding pass_loop
  pass_loop-nil explicit k sk s = refl

  pass_loop-Ends :
      (explicit : Option Text) (k : Walk) (refs : List ℕ) (sk : Skipper) (s : State u)
      → Ends u (pass_loop u c entry_of explicit k refs sk s)
  pass_loop-Ends explicit k [] sk s = inr (pass_loop-nil explicit k sk s)
  pass_loop-Ends explicit k (ref ∷ refs) sk s =
      pass_loop-step (Ends u) (λ r t. inl (r, refl)) explicit k ref refs sk s
        (pass_loop-Ends explicit k refs sk s) (λ t. pass_loop-Ends explicit k refs _ t)

  pub pass-Ends :
      (explicit : Option Text) (k : Walk) (refs : List ℕ) (s : State u)
      → Ends u (pass u c entry_of explicit k refs s)
  unfolding pass
  pass-Ends explicit k refs s = pass_loop-Ends explicit k refs _ s

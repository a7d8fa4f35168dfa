-- ===== src/Chain/Closed.antt =====
-- Induction over what the chain does, src/providers/chain.ts: what each single attempt keeps, and
-- what each answer has, holds of whole walks and pins.
use msrouter.Prelude.{
  ℕ, zero, suc, ◌≡◌, refl, inl, inr, Bool, true, false, ◌||◌, Option, none, some, List, [], ◌∷◌,
  arith, nat_eq, if◌then◌else◌, Text, Bool-cases,
}
use msrouter.Provider.{RoutingEntry}
use msrouter.Provider.Ids.{ProviderId, provider_eq}
use msrouter.Rotation.{eligible}
use msrouter.Routing.Extras.{ResolvedConfig, available}
use msrouter.Failure.{Walk, Behavior, Skipper}
use msrouter.Chain.{
  Upstream, Served, Note, Outcome, ok, Attempted, served, retry, given_up, PassEnd, pass_served,
  pass_aborted, exhausted, State, attempt_once, over_deadline, after_round, or_go_on, or_next,
  try_loop, try_entry, model_for, walk_behavior, pass_loop, pass, finish, second_pass, iterate,
  pin_behavior, pin_entry, single_loop, run_single,
}

or-false : (a b : Bool) → (a || b) ≡ false → (a ≡ false) × (b ≡ false)
or-false true b h = cc
or-false false b h = (refl, h)

module _ {κ} {R : Type 0} (u : Upstream R) (c : ResolvedConfig) (entry_of : ℕ → RoutingEntry)
    (P : State u → Type κ) (G : Served R → Type κ) where
  open u use {now, aborted}

  -- What every admissible attempt keeps, and what every answer that it returns has.
  abbrev pub StepKeeps : ℕ → RoutingEntry → Text → Behavior → Type κ
  StepKeeps ref x model behavior =
      (last : Bool) (n : ℕ) (s : State u)
      → available c x.provider ≡ true
      → aborted s.world ≡ false
      → over_deadline u c entry_of x behavior n s.world ≡ false
      → P s
      → P (attempt_once u c entry_of last n ref x model behavior s).1
        × ((r : Served R)
            → (attempt_once u c entry_of last n ref x model behavior s).0 ≡ served r
            → G r)

  -- the same of a call that may return nothing
  abbrev pub Keeps : Option (Served R) × State u → Type κ
  Keeps m = P m.1 × ((r : Served R) → m.0 ≡ some r → G r)

  after_round-Keeps :
      (again : State u → Option (Served R) × State u)
      → ((t : State u) → P t → Keeps (again t))
      → (m : Attempted R × State u) → P m.1 × ((r : Served R) → m.0 ≡ served r → G r)
      → Keeps (after_round u c entry_of again m)
  unfolding after_round
  after_round-Keeps again h (served r, t) k = (k.0, λ r' e. k.1 r' (ground arith))
  after_round-Keeps again h (retry, t) k = h t k.0
  after_round-Keeps again h (given_up, t) k = (k.0, λ r e. cc)

  module _ (ref : ℕ) (x : RoutingEntry) (model : Text) (behavior : Behavior)
      (step : StepKeeps ref x model behavior) (on : available c x.provider ≡ true) where
    stopped-Keeps :
        (s : State u) (b : Bool) (m : Option (Served R) × State u)
        → P s
        → (b ≡ false → Keeps m)
        → Keeps (if b then (none, s) else m)
    stopped-Keeps s true m h k = (h, λ r e. cc)
    stopped-Keeps s false m h k = k refl

    try_loop-Keeps :
        (left n : ℕ) (s : State u)
        → P s
        → Keeps (try_loop u c entry_of left n ref x model behavior s)
    unfolding try_loop
    try_loop-Keeps zero n s h =
        stopped-Keeps s (aborted s.world || over_deadline u c entry_of x behavior n s.world) _ h
          λ go.
            after_round-Keeps _ (λ t p. (p, λ r e. cc))
              (attempt_once u c entry_of true n ref x model behavior s)
              (step true n s on (or-false _ _ go).0 (or-false _ _ go).1 h)
    try_loop-Keeps (suc left) n s h =
        stopped-Keeps s (aborted s.world || over_deadline u c entry_of x behavior n s.world) _ h
          λ go.
            after_round-Keeps _ (λ t p. try_loop-Keeps left (suc n) t p)
              (attempt_once u c entry_of false n ref x model behavior s)
              (step false n s on (or-false _ _ go).0 (or-false _ _ go).1 h)

  -- the notes of failures are not the property's business
  abbrev pub NotesFree : Type κ
  NotesFree = (s : State u) (l : List Note) → P s → P (record s { failures = l })

  -- nor is the deletion of expired windows
  abbrev pub SweepFree : Type κ
  SweepFree = (s : State u) → P s → P (record s { queue = (eligible (now s.world) s.queue).1 })

  module _ (free : NotesFree) where
    try_entry-Keeps :
        (ref : ℕ) (x : RoutingEntry) (model : Text) (behavior : Behavior)
        → StepKeeps ref x model behavior
        → (s : State u) → P s
        → Keeps (try_entry u c entry_of ref x model behavior s)
    unfolding try_entry
    try_entry-Keeps ref x model behavior step s h = elim (Bool-cases (available c x.provider)) [
      | inl on ↦
          rw on (try_loop-Keeps ref x model behavior step on c.env.max_transient_retries 0 s h)
      | inr off ↦ rw off (free s _ h, λ r e. cc)
    ]

    abbrev pub PassKeeps : PassEnd R × State u → Type κ
    PassKeeps m = P m.1 × ((r : Served R) → m.0 ≡ pass_served r → G r)

    abbrev pub OutcomeKeeps : Outcome R × State u → Type κ
    OutcomeKeeps m = P m.1 × ((r : Served R) → m.0 ≡ ok r → G r)

    module _ (explicit : Option Text) (k : Walk)
        (step : (ref : ℕ)
          → StepKeeps ref
              (entry_of ref)
              (model_for explicit (entry_of ref))
              (walk_behavior k)) where
      or_go_on-Keeps :
          (go : State u → PassEnd R × State u)
          → ((t : State u) → P t → PassKeeps (go t))
          → (m : Option (Served R) × State u) → Keeps m
          → PassKeeps (or_go_on u c entry_of go m)
      unfolding or_go_on
      or_go_on-Keeps go h (some r, t) k = (k.0, λ r' e. k.1 r' (ground arith))
      or_go_on-Keeps go h (none, t) k = h t k.0

      branch-Keeps :
          (b : Bool) (m m' : PassEnd R × State u)
          → PassKeeps m
          → PassKeeps m'
          → PassKeeps (if b then m else m')
      branch-Keeps true m m' h h' = h
      branch-Keeps false m m' h h' = h'

      pass_loop-Keeps :
          (refs : List ℕ) (sk : Skipper) (s : State u)
          → P s
          → PassKeeps (pass_loop u c entry_of explicit k refs sk s)
      unfolding pass_loop
      pass_loop-Keeps [] sk s h = (h, λ r e. cc)
      pass_loop-Keeps (ref ∷ refs) sk s h =
          branch-Keeps (aborted s.world) _ _ (h, λ r e. cc)
            (branch-Keeps _ _ _ (pass_loop-Keeps refs sk s h) (
              or_go_on-Keeps _ (λ t p. pass_loop-Keeps refs _ t p) _
                (try_entry-Keeps ref (entry_of ref) _ (walk_behavior k) (step ref) s h)))

      pub pass-Keeps :
          (refs : List ℕ) (s : State u) → P s → PassKeeps (pass u c entry_of explicit k refs s)
      unfolding pass
      pass-Keeps refs s h = pass_loop-Keeps refs _ s h

      second_pass-Keeps :
          (order : List ℕ) (m : PassEnd R × State u)
          → PassKeeps m
          → PassKeeps (second_pass u c entry_of explicit k order m)
      unfolding second_pass
      second_pass-Keeps order (pass_served r, s) h = h
      second_pass-Keeps order (pass_aborted, s) h = h
      second_pass-Keeps order (exhausted, s) h = branch-Keeps _ _ _ (pass-Keeps _ s h.0) h

      finish-Keeps : (m : PassEnd R × State u) → PassKeeps m → OutcomeKeeps (finish u c entry_of m)
      finish-Keeps (pass_served r, s) h = (h.0, λ r' e. h.1 r' (ground arith))
      finish-Keeps (pass_aborted, s) h = (h.0, λ r e. cc)
      finish-Keeps (exhausted, s) h = (h.0, λ r e. cc)

    pub iterate-Keeps :
        (explicit : Option Text) (s : State u)
        → SweepFree
        → ((ref : ℕ)
            → StepKeeps ref (entry_of ref) (model_for explicit (entry_of ref)) (
                walk_behavior
                  (record { started_at = now s.world; deadline_ms = c.env.walk_deadline_ms })))
        → P s
        → OutcomeKeeps (iterate u c entry_of explicit s)
    unfolding iterate
    iterate-Keeps explicit s sweep step h =
        let k : Walk = record { started_at = now s.world; deadline_ms = c.env.walk_deadline_ms } in
        let order = (eligible (now s.world) s.queue).0 in
        finish-Keeps explicit k step _ (
          second_pass-Keeps explicit k step order _
            (pass-Keeps explicit k step order _ (free _ [] (sweep s h))))

    module _ (detached : ℕ) (p : ProviderId) (model : Text)
        (step : (i : ℕ) → StepKeeps detached (pin_entry p model i) model pin_behavior) where
      or_next-Keeps :
          (go : State u → Outcome R × State u)
          → ((t : State u) → P t → OutcomeKeeps (go t))
          → (m : Option (Served R) × State u) → Keeps m
          → OutcomeKeeps (or_next u c entry_of go m)
      unfolding or_next
      or_next-Keeps go h (some r, t) k = (k.0, λ r' e. k.1 r' (ground arith))
      or_next-Keeps go h (none, t) k = h t k.0

      single_loop-Keeps :
          (left i : ℕ) (s : State u)
          → P s
          → OutcomeKeeps (single_loop u c entry_of detached p model left i s)
      unfolding single_loop
      single_loop-Keeps zero i s h = (h, λ r e. cc)
      single_loop-Keeps (suc left) i s h = elim (Bool-cases (aborted s.world)) [
        | inl stop ↦ rw stop (h, λ r e. cc)
        | inr go ↦ rw go (
            or_next-Keeps _ (λ t q. single_loop-Keeps left (suc i) t q) _
              (try_entry-Keeps detached _ model _ (step i) s h))
      ]

      pub run_single-Keeps :
          (s : State u) → P s → OutcomeKeeps (run_single u c entry_of detached p model s)
      unfolding run_single
      run_single-Keeps s h = elim (Bool-cases (available c p)) [
        | inl on ↦ rw on (single_loop-Keeps _ 0 _ (free s [] h))
        | inr off ↦ rw off (h, λ r e. cc)
      ]

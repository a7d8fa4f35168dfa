-- ===== src/Director/Settled.antt =====
-- What phase 6 of a tick of the Director leaves to be applied: `runOnce`, src/director/loop.ts, with
-- `readApprovedPatches`, src/director/ledger.ts.
use mathlib.Core.List.{append_assoc, append-nil}
use msrouter.Prelude.{
  ◌≡◌, refl, subst, ap, sym, ◌∙◌, Bool, true, false, not, ◌&&◌, none, List, [], ◌∷◌, ◌++◌, map,
  arith, text_eq, if◌then◌else◌, Text, get,
}
use msrouter.Director.Ledger.{LedgerEntry}
use msrouter.Director.Approved.{open_approvals, read_approved_patches}
use msrouter.Director.Patches.{Patch}
use msrouter.Director.Messages.{build_applied_message}
use msrouter.Director.Machine.{
  Settings, Machine, Tick, Flow, next, stopped, then_, performed, perform,
}
use msrouter.Director.Supervision.{post, publish_event}
use msrouter.Director.Proposals.{apply_patches, approved_patches, is_some_patch, apply_phase}
use msrouter.Director.Rules.{if-holds}
use msrouter.Director.Marked.{done, OwnsAll, settled}

-- A phase goes on, in a state of which something holds.
unfoldable pub Goes : {W : Type 0} → (Tick W → Type 0) → Flow W → Type 0
Goes P (next t) = P t
Goes P (stopped r t) = ⊥

module _ {W : Type 0} where
  next-Goes : (P : Tick W → Type 0) (t : Tick W) → P t → Goes P (next t)
  unfolding Goes
  next-Goes P t h = h

  then_-Goes :
      (P Q : Tick W → Type 0) (f : Flow W) (g : Tick W → Flow W)
      → Goes P f
      → ((t : Tick W) → P t → Goes Q (g t))
      → Goes Q (then_ f g)
  unfolding Goes
  then_-Goes P Q (next t) g h k = k t h
  then_-Goes P Q (stopped r t) g h k = h

  performed-Goes :
      (P : Tick W → Type 0) (r : Bool × W) (t : Tick W)
      → r.0 ≡ true
      → ((w : W) → P (record t { world = w }))
      → Goes P (performed r t)
  unfolding Goes
  performed-Goes P (true, w) t h k = k w
  performed-Goes P (false, w) t h k = cc

weaken-Goes :
    {W : Type 0} (P Q : Tick W → Type 0) (f : Flow W)
    → Goes P f
    → ((t : Tick W) → P t → Q t)
    → Goes Q f
unfolding Goes
weaken-Goes P Q (next t) h k = k t h
weaken-Goes P Q (stopped r t) h k = h

if-Goes :
    {W : Type 0} (P : Tick W → Type 0) (b : Bool) (f g : Flow W)
    → (b ≡ true → Goes P f)
    → (b ≡ false → Goes P g)
    → Goes P (if b then f else g)
if-Goes P true f g h k = h refl
if-Goes P false f g h k = k refl

first-false : (a b : Bool) → b ≡ false → (a && not b) ≡ false → a ≡ false
first-false a b h g = ground arith

module _ (m : Machine) (log_path : Text) (e : Settings) where
  open m use {World, aborted, can_read_ledger, append_ledger, send_to_slack, apply_patch, execute}

  -- None of the calls of phase 6 throws.
  pub record IsReliable : Type 0 where
    pub appends : (w : World) → (append_ledger w).0 ≡ true
    pub sends : (message : Text) (w : World) → (send_to_slack message w).0 ≡ true
    pub patches : (p : Patch) (w : World) → (apply_patch p w).0 ≡ true
    pub executes : (ps : List Patch) (w : World) → (execute ps w).0 ≡ true

  abbrev Holding : List (LedgerEntry Patch) → Tick World → Type 0
  Holding es t = t.ledger ≡ es

  publish-holds :
      (es : List (LedgerEntry Patch)) (t : Tick World)
      → t.ledger ≡ es
      → (publish_event m log_path e t).ledger ≡ es
  publish-holds es t h = if-holds (Holding es) e.kafka_enabled _ _ (λ on. h) (λ off. h)

  is_some-nil : (ps : List Patch) → is_some_patch m log_path e ps ≡ false → ps ≡ []
  is_some-nil [] h = refl
  is_some-nil (p ∷ ps) h = cc

  -- No patch waits to be applied.
  abbrev pub Settled : Tick World → Type 0
  Settled t = (id : Text) → get id (open_approvals t.ledger) ≡ none

  module _ (r : IsReliable) where
    post-Goes :
        (x : LedgerEntry Patch) (message : Text) (t : Tick World)
        → Goes (Holding (t.ledger ++ x ∷ [])) (post m log_path e x message t)
    post-Goes x message t =
        then_-Goes (Holding t.ledger) _ (perform append_ledger t) _
          (performed-Goes _ _ t (r.appends t.world) (λ w. refl))
          (λ u h. performed-Goes _ _ _ (r.sends _ _) (λ w. ap (λ es. es ++ x ∷ []) h))

    apply_patches-Goes :
        (ps : List Patch) (es : List (LedgerEntry Patch)) (t : Tick World)
        → t.ledger ≡ es
        → Goes (Holding (es ++ map done ps)) (apply_patches m log_path e ps t)
    unfolding apply_patches
    apply_patches-Goes [] es t h = next-Goes _ t (h ∙ sym (append-nil es))
    apply_patches-Goes (p ∷ ps) es t h =
        let after = es ++ done p ∷ [] in
        then_-Goes (Holding es) _ (perform (apply_patch p) t) _
          (performed-Goes _ _ t (r.patches p t.world) (λ w. h))
          (λ u hu.
            then_-Goes (Holding after) _ (post m log_path e _ _ _) _
              (subst
                (λ l. Goes (Holding (l ++ done p ∷ [])) (
                  post m log_path e (done p) (build_applied_message p)
                    (record u { applied = p ∷ u.applied })))
                hu
                (post-Goes (done p) (build_applied_message p)
                  (record u { applied = p ∷ u.applied })))
              (λ v hv.
                subst
                  (λ l.
                    Goes (Holding l) (apply_patches m log_path e ps (publish_event m log_path e v)))
                  (append_assoc es (done p ∷ []) (map done ps))
                  (apply_patches-Goes ps after _ (publish-holds after v hv))))

    -- Where the ledger can be read and holds each proposal under its patch's own id, the run is not
    -- aborted, and no call of phase 6 throws, that phase ends, and no patch then waits to be applied.
    pub apply_phase-settles :
        (t : Tick World)
        → OwnsAll t.ledger
        → can_read_ledger t.world ≡ true
        → aborted t.world ≡ false
        → Goes Settled (apply_phase m log_path e t)
    unfolding apply_phase
    apply_phase-settles t own can on =
        let ps = approved_patches m log_path e t in
        let all : ps ≡ read_approved_patches t.ledger = rw can refl in
        let end_ : (l : List (LedgerEntry Patch))
            → l ≡ t.ledger ++ map done ps
            → (id : Text) → get id (open_approvals l) ≡ none =
          λ l h id.
            ap (λ k. get id (open_approvals k)) (h ∙ ap (λ qs. t.ledger ++ map done qs) all)
            ∙ settled id t.ledger own in
        if-Goes Settled (is_some_patch m log_path e ps && not (aborted t.world)) _ _
          (λ act.
            then_-Goes (Holding t.ledger) Settled (perform (execute ps) t) _
              (performed-Goes (Holding t.ledger) _ t (r.executes ps t.world) (λ w. refl))
              (λ u hu.
                weaken-Goes (Holding (t.ledger ++ map done ps)) Settled _
                  (apply_patches-Goes ps t.ledger u hu) (λ v hv. end_ v.ledger hv)))
          (λ none_.
            let empty = is_some-nil ps (first-false _ _ on none_) in
            next-Goes Settled t (
              end_ t.ledger (sym (ap (λ qs. t.ledger ++ map done qs) empty ∙ append-nil t.ledger))))

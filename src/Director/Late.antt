-- ===== src/Director/Late.antt =====
-- The rules of `Director/Rules` carry a predicate through the phases 2 to 6 of a tick, and through a
-- whole tick: src/director/loop.ts.
use msrouter.Prelude.{
  not-true, ℕ, ◌+◌, ◌≡◌, refl, sym, ◌∙◌, Bool, true, false, not, ◌&&◌, ◌||◌, Option, none, some,
  List, [], ◌∷◌, nat_eq, ltb, Text, &&-true, length, some_of, every,
}
use msrouter.Director.Patches.{Patch}
use msrouter.Director.Outbox.{Ruling}
use msrouter.Director.Events.{CampaignEvent}
use msrouter.Director.Tracker.{TrackerSummary}
use msrouter.Director.Classify.{DecisionClassification, is_empty}
use msrouter.Director.Classified.{is_stale, some_of-classify}
use msrouter.Director.Machine.{
  Settings, WorkerState, Machine, stall_restart, Written, wrote, kept, torn, Tick, perform, logged,
}
use msrouter.Director.Supervision.{post}
use msrouter.Director.Phases.{
  observation_text, same_count, same_text, written, save_checkpoint, last_event_at, classes,
  stalled, restarted, recover_stall, noted, publish_observation, rebuild_if, clear_warning,
  signature_of,
}
use msrouter.Director.Proposals.{
  post_proposals, answered, actionable, warned, is_some_class, propose_for, propose_phase,
  post_decisions, poll_decisions, apply_patches, approved_patches, is_some_patch, apply_phase,
}
use msrouter.Director.Rules.{
  Holds, IsKept, next-Holds, stopped-Holds, then_-Holds, if-Holds, if-holds, perform-Holds,
}
use msrouter.Director.Early.{post-Holds, record_restart-holds, publish_event-holds}

no_events : (b : Bool) (es : List CampaignEvent) → (not b && is_empty es) ≡ true → length es ≡ 0
no_events b [] h = refl
no_events b (x ∷ es) h = let none_ = (&&-true (not b) false h).1 in cc

module _ (m : Machine) (log_path : Text) (e : Settings) (P : Tick m.World → Type 0)
    (k : IsKept m e P) where
  open m use {
    World, aborted, now_iso, rotate_vpn_ip, restart_worker, write_checkpoint, md5, propose, execute,
    apply_patch, poll_slack_messages, read_tracker, value, millis,
  }

  written-Holds :
      (r : Written) (w : World) (t : Tick World)
      → ((r ≡ torn) → (write_checkpoint t.world).0 ≡ torn)
      → P t
      → Holds P (written m log_path e r w t)
  written-Holds wrote w t o h = next-Holds P _ (k.saved _ (k.supervised.stable.world t w h))
  written-Holds kept w t o h = stopped-Holds P _ _ (k.supervised.stable.world t w h)
  written-Holds torn w t o h =
      stopped-Holds P _ _ (k.torn_file _ t.world (o refl) (k.supervised.stable.world t w h))

  pub save_checkpoint-Holds : (t : Tick World) → P t → Holds P (save_checkpoint m log_path e t)
  unfolding save_checkpoint
  save_checkpoint-Holds t h =
      written-Holds (write_checkpoint t.world).0 (write_checkpoint t.world).1 t (λ x. x) h

  restarted-Holds :
      (r : Option WorkerState × World) (t : Tick World)
      → ((w : World) → P (logged stall_restart (record t { world = w })))
      → Holds P (restarted m log_path e r t)
  restarted-Holds (none, w) t h = stopped-Holds P _ _ (h w)
  restarted-Holds (some state, w) t h =
      then_-Holds P (save_checkpoint m log_path e _) _ (save_checkpoint-Holds _ (h w))
        (λ u p. next-Holds P _ (record_restart-holds m log_path e P k.supervised.stable _ u p))

  -- a campaign is found stale only where no event was read
  stale-no_events :
      (es : List CampaignEvent) (s : TrackerSummary) (u : Tick World)
      → some_of is_stale (classes m log_path e es s u) ≡ true
      → length es ≡ 0
  unfolding classes
  stale-no_events es s u h =
      let now = now_iso u.world in
      let last = last_event_at m log_path e es s u.checkpoint in
      let all = sym (some_of-classify millis e.stale_threshold s.complete es now last) ∙ h in
      no_events s.complete es (&&-true _ _ all).0

  pub recover_stall-Holds :
      (es : List CampaignEvent) (s : TrackerSummary) (u t : Tick World)
      → t.observed ≡ length es
      → P t
      → Holds P (recover_stall m log_path e (classes m log_path e es s u) t)
  unfolding recover_stall
  recover_stall-Holds es s u t n h =
      if-Holds P
        (some_of is_stale (classes m log_path e es s u)
          && (not t.checkpoint.stale_warning_active && not t.stale_handled_this_tick))
        _ _
        (λ fire.
          let stale = (&&-true _ _ fire).0 in
          let calm = (&&-true _ _ (&&-true _ _ fire).1).0 in
          let first = (&&-true _ _ (&&-true _ _ fire).1).1 in
          let quiet = n ∙ stale-no_events es s u stale in
          if-Holds P e.autostart _ _
            (λ on. restarted-Holds _ _ (λ w.
              k.stall_restarted (record t { world = w }) _ _ on quiet (not-true _ calm)
                (not-true _ first) (k.supervised.stable.world t w h)))
            (λ off. save_checkpoint-Holds _ (
              k.stalled (record t { world = (stalled m log_path e t).world }) _ _ quiet
                (not-true _ calm) (not-true _ first) (k.supervised.stable.world t _ h))))
        (λ leave. next-Holds P t h)

  noted-holds : (s : TrackerSummary) (t : Tick World) → P t → P (noted m log_path e s t)
  noted-holds s t h = k.noted t _ _ h

  pub publish_observation-Holds :
      (s : TrackerSummary) (t : Tick World) → P t → Holds P (publish_observation m log_path e s t)
  unfolding publish_observation
  publish_observation-Holds s t h =
      if-Holds P
        (not (same_count t.checkpoint.last_submitted s.submitted)
          || not (same_text t.checkpoint.last_observation_hash (md5 (observation_text s))))
        _ _
        (λ changed.
          post-Holds m log_path e P k.supervised.stable _ _ _
            (publish_event-holds m log_path e P k.supervised.stable _ (noted-holds s t h)))
        (λ same. next-Holds P t h)

  pub rebuild_if-holds : (b : Bool) (t : Tick World) → P t → P (rebuild_if m log_path e b t)
  rebuild_if-holds true t h = k.supervised.stable.world t _ h
  rebuild_if-holds false t h = h

  pub clear_warning-holds : (t : Tick World) → P t → P (clear_warning m log_path e t)
  clear_warning-holds t h =
      if-holds P (ltb 0 t.observed && t.checkpoint.stale_warning_active) _ t
        (λ on. k.cleared t (&&-true _ _ on).0 h) (λ off. h)

  post_proposals-Holds :
      (ps : List Patch) (n : ℕ) (t : Tick World)
      → P t
      → Holds P (post_proposals m log_path e n ps t)
  unfolding post_proposals
  post_proposals-Holds [] n t h = next-Holds P _ (k.counted t n h)
  post_proposals-Holds (p ∷ ps) n t h =
      if-Holds P (aborted t.world) _ _ (λ gone. next-Holds P _ (k.counted t n h))
        (λ on.
          then_-Holds P (post m log_path e _ _ t) _
            (post-Holds m log_path e P k.supervised.stable _ _ t h)
            (λ u q.
              post_proposals-Holds ps (n + 1) _
                (publish_event-holds m log_path e P k.supervised.stable u q)))

  answered-Holds :
      (r : Option (List Patch) × World) (t : Tick World) → P t → Holds P (answered m log_path e r t)
  answered-Holds (none, w) t h = stopped-Holds P _ _ (k.supervised.stable.world t w h)
  answered-Holds (some ps, w) t h = post_proposals-Holds ps 0 _ (k.supervised.stable.world t w h)

  warned-holds : (b : Bool) (t : Tick World) → P t → P (warned m log_path e b t)
  warned-holds true t h = k.warned t h
  warned-holds false t h = h

  propose_for-Holds :
      (acts : List DecisionClassification) (s : TrackerSummary) (t : Tick World)
      → P t
      → Holds P (propose_for m log_path e acts s t)
  propose_for-Holds acts s t h =
      if-Holds P (same_text t.checkpoint.last_proposal_hash (md5 (signature_of acts))) _ _
        (λ same. next-Holds P _ (warned-holds (every is_stale acts) t h))
        (λ other. answered-Holds _ _ (warned-holds (every is_stale acts) _ (k.hashed t _ h)))

  pub propose_phase-Holds :
      (cs : List DecisionClassification) (s : TrackerSummary) (t : Tick World)
      → P t
      → Holds P (propose_phase m log_path e cs s t)
  unfolding propose_phase
  propose_phase-Holds cs s t h =
      if-Holds P (is_some_class m log_path e (actionable m log_path e cs) && not (aborted t.world))
        _ _
        (λ act.
          if-Holds P
            (every is_stale (actionable m log_path e cs)
              && (t.checkpoint.stale_warning_active && not t.stale_handled_this_tick))
            _ _ (λ quiet. next-Holds P t h)
            (λ loud. propose_for-Holds (actionable m log_path e cs) s t h))
        (λ none_. next-Holds P t h)

  post_decisions-Holds :
      (ds : List (Text × Ruling)) (t : Tick World)
      → P t
      → Holds P (post_decisions m log_path e ds t)
  unfolding post_decisions
  post_decisions-Holds [] t h = next-Holds P t h
  post_decisions-Holds ((id, r) ∷ ds) t h =
      then_-Holds P (post m log_path e _ _ t) _
        (post-Holds m log_path e P k.supervised.stable _ _ t h)
        (λ u q.
          post_decisions-Holds ds _ (publish_event-holds m log_path e P k.supervised.stable u q))

  pub poll_decisions-Holds : (t : Tick World) → P t → Holds P (poll_decisions m log_path e t)
  unfolding poll_decisions
  poll_decisions-Holds t h = post_decisions-Holds _ _ (
      k.polled _ _
        (k.supervised.stable.world t (poll_slack_messages t.checkpoint.last_slack_ts t.world).1 h))

  apply_patches-Holds :
      (ps : List Patch) (t : Tick World) → P t → Holds P (apply_patches m log_path e ps t)
  unfolding apply_patches
  apply_patches-Holds [] t h = next-Holds P t h
  apply_patches-Holds (p ∷ ps) t h =
      then_-Holds P (perform (apply_patch p) t) _
        (perform-Holds P k.supervised.stable (apply_patch p) t h)
        (λ u q.
          then_-Holds P (post m log_path e _ _ _) _
            (post-Holds m log_path e P k.supervised.stable _ _ _ (k.applied u p q))
            (λ v r.
              apply_patches-Holds ps _
                (publish_event-holds m log_path e P k.supervised.stable v r)))

  pub apply_phase-Holds : (t : Tick World) → P t → Holds P (apply_phase m log_path e t)
  unfolding apply_phase
  apply_phase-Holds t h =
      if-Holds P
        (is_some_patch m log_path e (approved_patches m log_path e t) && not (aborted t.world)) _ _
        (λ act.
          then_-Holds P (perform (execute _) t) _
            (perform-Holds P k.supervised.stable (execute _) t h)
            (apply_patches-Holds (approved_patches m log_path e t)))
        (λ none_. next-Holds P t h)

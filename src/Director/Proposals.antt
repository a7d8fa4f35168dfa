-- ===== src/Director/Proposals.antt =====
-- The phases 4 to 6 of a tick of the Director: `proposePatches`, `pollAndApplyDecisions` and the
-- execution of approved patches, src/director/loop.ts.
use msrouter.Prelude.{
  ℕ, ◌+◌, Bool, true, false, not, ◌&&◌, Option, none, some, List, [], ◌∷◌, nat_eq, text_eq,
  if◌then◌else◌, keep, every, Text,
}
use msrouter.Director.Ledger.{proposed, decided, applied}
use msrouter.Director.Approved.{read_approved_patches}
use msrouter.Director.Patches.{Patch}
use msrouter.Director.Outbox.{Ruling, approved, rejected}
use msrouter.Director.Tracker.{TrackerSummary}
use msrouter.Director.Classify.{Severity, info, DecisionClassification}
use msrouter.Director.Classified.{is_stale}
use msrouter.Director.Messages.{
  build_proposal_message, build_decision_message, build_applied_message,
}
use msrouter.Director.Machine.{Settings, Machine, Tick, error, Flow, next, stopped, then_, perform}
use msrouter.Director.Supervision.{post, entry_of, publish_event}
use msrouter.Director.Phases.{signature_of, same_text}

abbrev pub is_info : Severity → Bool
is_info info = true
is_info _ = false

module _ (m : Machine) (log_path : Text) (e : Settings) where
  open m use {
    World, aborted, now_iso, millis, restart_worker, rotate_vpn_ip, read_tracker, open_events,
    run_tick_status, rebuild_rag, parse, byte_length, value, md5, propose, execute, apply_patch,
    can_read_ledger, poll_slack_messages, write_checkpoint,
  }

  -- the proposals of the agent are posted, until the run is aborted, and counted at the end
  unfoldable pub post_proposals : ℕ → List Patch → Tick World → Flow World
  post_proposals n [] t = next (record t { proposed = n })
  post_proposals n (p ∷ ps) t =
      if aborted t.world
      then next (record t { proposed = n })
      else then_
          (post m log_path e (entry_of proposed p.id false (some p)) (build_proposal_message p) t)
          (λ u. post_proposals (n + 1) ps (publish_event m log_path e u))

  abbrev pub answered : Option (List Patch) × World → Tick World → Flow World
  answered (none, w) t = stopped error (record t { world = w })
  answered (some ps, w) t = post_proposals 0 ps (record t { world = w })

  abbrev pub actionable : List DecisionClassification → List DecisionClassification
  actionable cs = keep (λ c. not (is_info c.severity)) cs

  -- `onlyStale` sets the flag
  abbrev pub warned : Bool → Tick World → Tick World
  warned true t = record t { checkpoint = record t.checkpoint { stale_warning_active = true } }
  warned false t = t

  abbrev pub with_hash : Text → Tick World → Tick World
  with_hash h t = record t { checkpoint = record t.checkpoint { last_proposal_hash = some h } }

  abbrev pub is_some_class : List DecisionClassification → Bool
  is_some_class [] = false
  is_some_class (c ∷ cs) = true

  abbrev pub propose_for : List DecisionClassification → TrackerSummary → Tick World → Flow World
  propose_for acts s t =
      let h = md5 (signature_of acts) in
      let only_stale = every is_stale acts in
      if same_text t.checkpoint.last_proposal_hash h
      then next (warned only_stale t)
      else let u = warned only_stale (with_hash h t) in answered (propose acts s u.world) u

  -- phase 4
  unfoldable pub propose_phase :
      List DecisionClassification → TrackerSummary → Tick World → Flow World
  propose_phase cs s t =
      let acts = actionable cs in
      if is_some_class acts && not (aborted t.world)
      then if every is_stale acts
          && (t.checkpoint.stale_warning_active && not t.stale_handled_this_tick)
        then next t
        else propose_for acts s t
      else next t

  abbrev pub is_approved : Ruling → Bool
  is_approved approved = true
  is_approved rejected = false

  -- the loop of `pollAndApplyDecisions`
  unfoldable pub post_decisions : List (Text × Ruling) → Tick World → Flow World
  post_decisions [] t = next t
  post_decisions ((id, r) ∷ ds) t =
      then_
        (post m log_path e (entry_of decided id (is_approved r) none) (build_decision_message id r)
          t)
        (λ u. post_decisions ds (publish_event m log_path e u))

  abbrev pub newer_ts : Option Text → Option Text → Option Text
  newer_ts (some (c ∷ s)) old = some (c ∷ s)
  newer_ts _ old = old

  abbrev pub polled : (List (Text × Ruling) × Option Text) × World → Tick World → Tick World
  polled ((ds, ts), w) t = record t {
    world = w;
    checkpoint = record t.checkpoint { last_slack_ts = newer_ts ts t.checkpoint.last_slack_ts };
  }

  -- phase 5: `pollAndApplyDecisions`
  unfoldable pub poll_decisions : Tick World → Flow World
  poll_decisions t =
      let answer = poll_slack_messages t.checkpoint.last_slack_ts t.world in
      post_decisions answer.0.0 (polled answer t)

  -- the patches are applied one by one
  unfoldable pub apply_patches : List Patch → Tick World → Flow World
  apply_patches [] t = next t
  apply_patches (p ∷ ps) t = then_ (perform (apply_patch p) t) (λ u.
      then_
        (post m log_path e (entry_of applied p.id false none) (build_applied_message p)
          (record u { applied = p ∷ u.applied }))
        (λ v. apply_patches ps (publish_event m log_path e v)))

  abbrev pub approved_patches : Tick World → List Patch
  approved_patches t = if can_read_ledger t.world then read_approved_patches t.ledger else []

  abbrev pub is_some_patch : List Patch → Bool
  is_some_patch [] = false
  is_some_patch (p ∷ ps) = true

  -- phase 6
  unfoldable pub apply_phase : Tick World → Flow World
  apply_phase t =
      let ps = approved_patches t in
      if is_some_patch ps && not (aborted t.world)
      then then_ (perform (execute ps) t) (apply_patches ps)
      else next t

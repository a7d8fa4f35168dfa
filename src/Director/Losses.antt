-- ===== src/Director/Losses.antt =====
-- What a tick of the Director forgets: `runOnce`, src/director/loop.ts, where the tracker cannot be
-- read, where it has no date, and where a restart fails.
use msrouter.Prelude.{
  ℕ, zero, suc, ◌+◌, ◌*◌, ◌≤◌, ◌≡◌, refl, ap, ◌∙◌, Bool, true, false, not, ◌&&◌, ◌||◌, Option, none,
  some, List, [], arith, nat_eq, leb, if◌then◌else◌, Text, some_of,
}
use msrouter.Director.Tracker.{TrackerSummary, is_campaign_complete, read_tracker_summary}
use msrouter.Director.Classify.{DecisionClassification, is_idle}
use msrouter.Director.Classified.{is_stale, some_of-classify}
use msrouter.Director.Machine.{
  Settings, Machine, Tick, next, stopped, then_, perform, performed, error,
}
use msrouter.Director.Supervision.{
  ensure_kafka_running, supervise_infra, should_rotate_vpn, is_stuck, rotated, rotate_vpn,
  ensure_campaign_running,
}
use msrouter.Director.Phases.{
  classes, last_event_at, observed_after, recover_stall, stalled, restarted, save_checkpoint,
}
use msrouter.Director.Loop.{
  Between, begun, load_checkpoint, observe, observed_by, phases, from_infra, from_vpn, from_worker,
  run_tick, ended, left,
}
use msrouter.Director.Rules.{IsStable}
use msrouter.Director.Early.{ensure_kafka_running-holds}

if_true {ℓ} : {A : Type ℓ} (b : Bool) (x y : A) → b ≡ true → (if b then x else y) ≡ x
if_true true x y h = refl
if_true false x y h = cc

if_false {ℓ} : {A : Type ℓ} (b : Bool) (x y : A) → b ≡ false → (if b then x else y) ≡ y
if_false true x y h = cc
if_false false x y h = refl

not_later : (n k : ℕ) → 1 ≤ k → leb (n + k * 60000) n ≡ false
not_later n k h = ground arith

never_idle : (k : ℕ) (at : Option ℕ) → 1 ≤ k → is_idle k at at ≡ false
never_idle k none h = refl
never_idle k (some n) h = not_later n k h

and_false : (a : Bool) → (a && false) ≡ false
and_false true = refl
and_false false = refl

never_stuck : (a b : Bool) → ((a && false) && b) ≡ false
never_stuck true b = refl
never_stuck false b = refl

module _ (m : Machine) (log_path : Text) (e : Settings) where
  open m use {World, flush_outbox, read_tracker, value, millis, now_iso, now_ms, rotate_vpn_ip}

  -- Where a tick reads no event, and a tracker without a date, the campaign is never found stale,
  -- however long it has stood still, for any positive threshold.
  pub never_stale :
      (s : TrackerSummary) (offset : ℕ) (t : Tick World)
      → s.updated_at ≡ []
      → 1 ≤ e.stale_threshold
      → some_of is_stale (classes m log_path e [] s (observed_after m log_path e ([], offset) t))
        ≡ false
  unfolding classes last_event_at
  never_stale s offset t no_date positive =
      let u = observed_after m log_path e ([], offset) t in
      let last : last_event_at m log_path e [] s u.checkpoint ≡ now_iso u.world = rw no_date refl in
      some_of-classify millis e.stale_threshold s.complete [] (now_iso u.world)
        (last_event_at m log_path e [] s u.checkpoint)
      ∙ rw (last, never_idle e.stale_threshold (millis (now_iso u.world)) positive) (ground arith)

  -- A restart for a stalled campaign that fails ends the tick before the warning is saved: the
  -- checkpoint file is as it was, so that the next tick does the same again.
  pub recover_stall-fails :
      (cs : List DecisionClassification) (t : Tick World)
      → e.autostart ≡ true
      → some_of is_stale cs ≡ true
      → t.checkpoint.stale_warning_active ≡ false
      → t.stale_handled_this_tick ≡ false
      → (m.restart_worker (stalled m log_path e t).world).0 ≡ none
      → (ended m log_path e (recover_stall m log_path e cs t)).disk ≡ t.disk
  unfolding recover_stall
  recover_stall-fails cs t on stale calm first fails =
      let fire : (some_of is_stale cs
            && (not t.checkpoint.stale_warning_active && not t.stale_handled_this_tick))
          ≡ true =
        ground arith in
      ap (λ f. (ended m log_path e f).disk)
        (if_true _
            (if e.autostart
              then restarted m log_path e (m.restart_worker (stalled m log_path e t).world)
                  (stalled m log_path e t)
              else save_checkpoint m log_path e (stalled m log_path e t))
            _ fire
          ∙ if_true e.autostart _ _ on
          ∙ ap
              (λ r.
                restarted m log_path e (r, (m.restart_worker (stalled m log_path e t).world).1)
                  (stalled m log_path e t))
              fails)

  -- The rotations of some ticks in a row.
  unfoldable pub rotations_in : ℕ → Between World → ℕ
  rotations_in zero b = 0
  rotations_in (suc n) b =
      let t = ended m log_path e (run_tick m log_path e b) in
      t.rotations + rotations_in n (left m log_path e t)

  -- a tick has no more than begun to read the campaign
  abbrev Same : Between World → Tick World → Type 0
  Same b t = (t.rotations ≡ 0) × (t.disk ≡ b.disk) × (t.checkpoint ≡ load_checkpoint b.disk)

  Same-IsStable : (b : Between World) → IsStable (Same b)
  Same-IsStable b = record { world = λ t w h. h; ledger = λ t x h. h }

  -- Autostart is off, the VPN is rotated periodically, the tracker cannot be read, and the outbox can
  -- be flushed.
  pub record IsBlind : Type 0 where
    pub off : e.autostart ≡ false
    pub periodic : leb 1 e.vpn_interval ≡ true
    pub blind : (w : World) → read_tracker w ≡ none
    pub flushed : (w : World) → (flush_outbox w).0 ≡ true

  module _ (h : IsBlind) where
    flush :
        (t : Tick World)
        → perform flush_outbox t ≡ next (record t { world = (flush_outbox t.world).1 })
    flush t = ap (λ sent. performed (sent, (flush_outbox t.world).1) t) (h.flushed t.world)

    leave_infra : (t : Tick World) → supervise_infra m log_path e t ≡ next t
    unfolding supervise_infra
    leave_infra t = if_false e.autostart _ _ h.off

    leave_worker : (t : Tick World) → ensure_campaign_running m log_path e t ≡ next t
    unfolding ensure_campaign_running
    leave_worker t =
        if_true _ _ _ (ap (λ on. not on || is_campaign_complete value (read_tracker t.world)) h.off)

    see_nothing : (t : Tick World) → observe m log_path e t ≡ stopped error t
    unfolding observe read_tracker_summary
    see_nothing t =
        ap (λ r. observed_by m log_path e (read_tracker_summary value r) t) (h.blind t.world)

    only_rotate :
        (t : Tick World)
        → t.checkpoint.last_vpn_rotation ≡ none
        → rotate_vpn m log_path e t ≡ next (rotated m log_path e t)
    unfolding rotate_vpn
    only_rotate t never =
        let due : should_rotate_vpn m log_path e t.checkpoint.last_vpn_rotation (now_ms t.world)
            ≡ true =
          rw (never, h.periodic) refl in
        if_true _ _ _ due
        ∙ if_false _ _ _ (
            ap
              (λ on.
                ((rotate_vpn_ip t.world).0 && on)
                && is_stuck m log_path e (rotated m log_path e t).world)
              h.off
            ∙ never_stuck (rotate_vpn_ip t.world).0 _)

    blind_phases :
        (t : Tick World)
        → t.checkpoint.last_vpn_rotation ≡ none
        → phases m log_path e t
          ≡ stopped error (rotated m log_path e (record t { world = (flush_outbox t.world).1 }))
    unfolding phases
    blind_phases t never =
        let u = record t { world = (flush_outbox t.world).1 } in
        ap (λ f. then_ f (from_infra m log_path e)) (flush t)
        ∙ ap (λ f. then_ f (from_vpn m log_path e)) (leave_infra u)
        ∙ ap (λ f. then_ f (from_worker m log_path e)) (only_rotate u never)
        ∙ ap (λ f. then_ f (observe m log_path e)) (leave_worker (rotated m log_path e u))
        ∙ see_nothing (rotated m log_path e u)

    blind_tick :
        (b : Between World)
        → (load_checkpoint b.disk).last_vpn_rotation ≡ none
        → ((ended m log_path e (run_tick m log_path e b)).rotations ≡ 1)
          × ((ended m log_path e (run_tick m log_path e b)).disk ≡ b.disk)
    unfolding run_tick
    blind_tick b never =
        let same =
          ensure_kafka_running-holds m log_path e (Same b) (Same-IsStable b) (begun b)
            (refl, refl, refl) in
        let none_yet = ap (λ c. c.last_vpn_rotation) same.2 ∙ never in
        rw (blind_phases (ensure_kafka_running m log_path e (begun b)) none_yet)
          (ap (λ n. n + 1) same.0, same.1)

    -- While the tracker cannot be read, each tick rotates the VPN, whatever the interval says: if the
    -- checkpoint file holds no time of a rotation, `n` ticks in a row make `n` rotations, with
    -- autostart off, periodic rotations on, and an outbox that can be flushed.
    pub rotations-blind :
        (n : ℕ) (b : Between World)
        → (load_checkpoint b.disk).last_vpn_rotation ≡ none
        → rotations_in n b ≡ n
    unfolding rotations_in
    rotations-blind zero b never = refl
    rotations-blind (suc n) b never =
        let one = blind_tick b never in
        let next_never = ap (λ d. (load_checkpoint d).last_vpn_rotation) one.1 ∙ never in
        let later : rotations_in n
              (left m log_path e (ended m log_path e (run_tick m log_path e b)))
            ≡ n =
          rotations-blind n (left m log_path e (ended m log_path e (run_tick m log_path e b)))
            next_never in
        rw (one.0, later) (omega arith)

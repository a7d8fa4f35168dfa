-- ===== src/Director/Early.antt =====
-- The rules of `Director/Rules` carry a predicate through the phases 0 and 1 of a tick:
-- src/director/loop.ts.
use msrouter.Prelude.{
  ℕ, ◌≡◌, refl, Bool, true, false, not, ◌&&◌, ◌||◌, Option, none, some, nat_eq, Text, &&-true,
}
use msrouter.Director.Ledger.{LedgerEntry}
use msrouter.Director.Patches.{Patch}
use msrouter.Director.Tracker.{is_campaign_complete}
use msrouter.Director.Machine.{
  Settings, WorkerState, Machine, infra_restart, vpn_restart, Tick, Flow, next, stopped, perform,
  logged,
}
use msrouter.Director.Supervision.{
  post, caught, record_restart, publish_event, recover_kafka, after_probe, ensure_kafka_running,
  after_infra, supervise_infra, should_rotate_vpn, is_stuck, after_restart, rotated, rotate_vpn,
  stop_orphan, start_missing, kafka_after, ensure_campaign_running,
}
use msrouter.Director.Rules.{
  Holds, IsStable, IsSupervised, next-Holds, stopped-Holds, then_-Holds, if-Holds, if-holds,
  perform-Holds,
}

module _ (m : Machine) (log_path : Text) (e : Settings) (P : Tick m.World → Type 0) where
  open m use {
    World, kafka_up, in_iterm, now_ms, now_iso, rotate_vpn_ip, read_tracker, value, snapshot_worker,
    restart_worker, ensure_infrastructure_healthy, append_ledger, send_to_slack, stop_worker,
  }

  pub post-Holds :
      (s : IsStable P) (x : LedgerEntry Patch) (message : Text) (t : Tick World)
      → P t
      → Holds P (post m log_path e x message t)
  post-Holds s x message t h =
      then_-Holds P (perform append_ledger t) _ (perform-Holds P s append_ledger t h)
        (λ u p. perform-Holds P s (send_to_slack message) _ (s.ledger u x p))

  caught-holds : (f : Flow World) → Holds P f → P (caught m log_path e f)
  unfolding Holds
  caught-holds (next t) h = h
  caught-holds (stopped r t) h = h

  pub record_restart-holds :
      (s : IsStable P) (pid : ℕ) (t : Tick World) → P t → P (record_restart m log_path e pid t)
  unfolding record_restart
  record_restart-holds s pid t h = caught-holds _ (post-Holds s _ _ t h)

  pub publish_event-holds :
      (s : IsStable P) (t : Tick World) → P t → P (publish_event m log_path e t)
  publish_event-holds s t h = if-holds P e.kafka_enabled _ _ (λ on. s.world t _ h) (λ off. h)

  recover_kafka-holds :
      (s : IsStable P) (b : Bool) (t : Tick World) → P t → P (recover_kafka m log_path e b t)
  recover_kafka-holds s true t h = s.world t _ h
  recover_kafka-holds s false t h = s.world t _ h

  after_probe-holds :
      (s : IsStable P) (r : Bool × World) (t : Tick World) → P t → P (after_probe m log_path e r t)
  after_probe-holds s (true, w) t h = s.world t w h
  after_probe-holds s (false, w) t h = recover_kafka-holds s _ _ (s.world t w h)

  pub ensure_kafka_running-holds :
      (s : IsStable P) (t : Tick World) → P t → P (ensure_kafka_running m log_path e t)
  unfolding ensure_kafka_running
  ensure_kafka_running-holds s t h =
      if-holds P e.kafka_enabled _ _ (λ on. after_probe-holds s (kafka_up t.world) t h) (λ off. h)

  module _ (s : IsStable P)
      (i : (t : Tick World) → e.autostart ≡ true → P t → P (logged infra_restart t)) where
    after_infra-Holds :
        (r : Option Bool × World) (t : Tick World)
        → e.autostart ≡ true
        → P t
        → Holds P (after_infra m log_path e r t)
    after_infra-Holds (none, w) t on h = stopped-Holds P _ _ (s.world t w h)
    after_infra-Holds (some false, w) t on h = next-Holds P _ (s.world t w h)
    after_infra-Holds (some true, w) t on h =
        stopped-Holds P _ _ (record_restart-holds s _ _ (i _ on (s.world t w h)))

    pub supervise_infra-Holds : (t : Tick World) → P t → Holds P (supervise_infra m log_path e t)
    unfolding supervise_infra
    supervise_infra-Holds t h =
        if-Holds P e.autostart _ _
          (λ on.
            then_-Holds P (perform m.ensure_cdp_running t) _
              (perform-Holds P s m.ensure_cdp_running t h)
              (λ u p. after_infra-Holds (ensure_infrastructure_healthy u.world) u on p))
          (λ off. next-Holds P t h)

  module _ (k : IsSupervised m e P) where
    after_restart-Holds :
        (r : Option WorkerState × World) (t : Tick World)
        → ((w : World) → P (logged vpn_restart (record t { world = w })))
        → Holds P (after_restart m log_path e vpn_restart r t)
    after_restart-Holds (none, w) t h = stopped-Holds P _ _ (h w)
    after_restart-Holds (some state, w) t h =
        next-Holds P _ (record_restart-holds k.stable _ _ (h w))

    rotated-holds : (t : Tick World) → P t → P (rotated m log_path e t)
    rotated-holds t h =
        k.rotated _ (now_iso (rotate_vpn_ip t.world).1)
          (k.stable.world t (rotate_vpn_ip t.world).1 h)

    pub rotate_vpn-Holds :
        (t : Tick World)
        → t.stale_handled_this_tick ≡ false
        → P t
        → Holds P (rotate_vpn m log_path e t)
    unfolding rotate_vpn
    rotate_vpn-Holds t first h =
        if-Holds P (should_rotate_vpn m log_path e t.checkpoint.last_vpn_rotation (now_ms t.world))
          _ _
          (λ due.
            if-Holds P
              (((rotate_vpn_ip t.world).0 && e.autostart)
                && is_stuck m log_path e (rotated m log_path e t).world)
              _ _
              (λ again.
                let on : e.autostart ≡ true = (&&-true _ _ (&&-true _ _ again).0).1 in
                after_restart-Holds _ _
                  (λ w. k.vpn_restarted _ on first (k.stable.world _ w (rotated-holds t h))))
              (λ leave. next-Holds P _ (rotated-holds t h)))
          (λ early. next-Holds P t h)

    stop_orphan-Holds :
        (b : Bool) (t : Tick World)
        → e.autostart ≡ true
        → P t
        → Holds P (stop_orphan m log_path e b t)
    stop_orphan-Holds false t on h = next-Holds P t h
    stop_orphan-Holds true t on h = perform-Holds P k.stable stop_worker _ (k.stopped_worker t on h)

    start_missing-holds :
        (b : Bool) (t : Tick World) → e.autostart ≡ true → P t → P (start_missing m log_path e b t)
    start_missing-holds false t on h = h
    start_missing-holds true t on h = k.stable.world _ _ (k.started_worker t on h)

    kafka_after-holds : (t : Tick World) → P t → P (kafka_after m log_path e t)
    kafka_after-holds t h = if-holds P e.kafka_enabled _ _ (λ on. k.stable.world t _ h) (λ off. h)

    is_on : (a b : Bool) → (not a || b) ≡ false → a ≡ true
    is_on true b h = refl
    is_on false b h = cc

    pub ensure_campaign_running-Holds :
        (t : Tick World) → P t → Holds P (ensure_campaign_running m log_path e t)
    unfolding ensure_campaign_running
    ensure_campaign_running-Holds t h =
        if-Holds P (not e.autostart || is_campaign_complete value (read_tracker t.world)) _ _
          (λ leave. next-Holds P t h)
          (λ watch.
            let on = is_on e.autostart _ watch in
            then_-Holds P (stop_orphan m log_path e (snapshot_worker t.world).orphaned t) _
              (stop_orphan-Holds _ t on h)
              (λ u p. next-Holds P _ (kafka_after-holds _ (start_missing-holds _ u on p))))

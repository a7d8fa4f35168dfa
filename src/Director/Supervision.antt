-- ===== src/Director/Supervision.antt =====
-- How a tick of the Director looks after the worker, the VPN and Kafka: `ensureKafkaRunning`,
-- `recordRestart`, `ensureCampaignRunning` and the phases 0a to 1 of `runOnce`,
-- src/director/loop.ts, `shouldRotateVpn`, src/director/vpn.ts, and the ledger and Slack of
-- src/director/surface.ts.
use msrouter.Prelude.{
  ℕ, ◌+◌, ◌*◌, Bool, true, false, not, ◌&&◌, ◌||◌, Option, none, some, [], ◌∷◌, ◌++◌, ◌==◌, nat_eq,
  leb, ltb, if◌then◌else◌, Text,
}
use msrouter.Director.Ledger.{LedgerEntry, LedgerKind, restart}
use msrouter.Director.Patches.{Patch}
use msrouter.Director.Tracker.{is_campaign_complete}
use msrouter.Director.Messages.{build_restart_message}
use msrouter.Director.Machine.{
  Settings, WorkerState, Machine, WorkerAction, infra_restart, vpn_restart, stop, start, Tick,
  error, infra, Flow, next, stopped, then_, perform, attempt, logged,
}

abbrev minute : ℕ
minute = 60000

abbrev pub entry_of : LedgerKind → Text → Bool → Option Patch → LedgerEntry Patch
entry_of k id yes_ p = record { kind = k; patch_id = id; approved = yes_; patch = p }

module _ (m : Machine) (log_path : Text) (e : Settings) where
  open m use {
    World, now_iso, now_ms, millis, kafka_up, in_iterm, start_headless, start_kafka_in_iterm,
    produce, ensure_cdp_running, ensure_infrastructure_healthy, snapshot_worker, stop_worker,
    start_worker_in_iterm, restart_worker, rotate_vpn_ip, read_tracker, stat_events, append_ledger,
    send_to_slack, parse, value,
  }

  -- `appendLedger`, then the message: what the `post…` functions do
  abbrev pub post : LedgerEntry Patch → Text → Tick World → Flow World
  post entry message t =
      then_ (perform append_ledger t)
        (λ u. perform (send_to_slack message) (record u { ledger = u.ledger ++ entry ∷ [] }))

  abbrev pub caught : Flow World → Tick World
  caught (next t) = t
  caught (stopped r t) = t

  -- `recordRestart`
  unfoldable pub record_restart : ℕ → Tick World → Tick World
  record_restart pid t =
      caught (post (entry_of restart [] false none) (build_restart_message log_path pid) t)

  -- `publishEvent`
  abbrev pub publish_event : Tick World → Tick World
  publish_event t = if e.kafka_enabled then attempt produce t else t

  abbrev pub recover_kafka : Bool → Tick World → Tick World
  recover_kafka true t = attempt start_kafka_in_iterm t
  recover_kafka false t = attempt start_headless t

  abbrev pub after_probe : Bool × World → Tick World → Tick World
  after_probe (true, w) t = record t { world = w }
  after_probe (false, w) t = recover_kafka (in_iterm w) (record t { world = w })

  -- `ensureKafkaRunning`
  unfoldable pub ensure_kafka_running : Tick World → Tick World
  ensure_kafka_running t = if e.kafka_enabled then after_probe (kafka_up t.world) t else t

  abbrev pub after_infra : Option Bool × World → Tick World → Flow World
  after_infra (none, w) t = stopped error (record t { world = w })
  after_infra (some false, w) t = next (record t { world = w })
  after_infra (some true, w) t =
      let state = snapshot_worker w in
      stopped infra (record_restart state.pid (logged infra_restart (record t { world = w })))

  -- phase 0a
  unfoldable pub supervise_infra : Tick World → Flow World
  supervise_infra t =
      if e.autostart
      then then_ (perform ensure_cdp_running t)
          (λ u. after_infra (ensure_infrastructure_healthy u.world) u)
      else next t

  abbrev after_interval : ℕ → Option ℕ → Bool
  after_interval now none = false
  after_interval now (some last) = ltb (last + e.vpn_interval * minute) now

  abbrev last_or_now : Option Text → ℕ → Bool
  last_or_now none now = true
  last_or_now (some []) now = true
  last_or_now (some (c ∷ s)) now = after_interval now (millis (c ∷ s))

  -- `shouldRotateVpn`
  abbrev pub should_rotate_vpn : Option Text → ℕ → Bool
  should_rotate_vpn last now = leb 1 e.vpn_interval && last_or_now last now

  abbrev events_idle : Option (ℕ × ℕ) → ℕ → Bool
  events_idle none now = true
  events_idle (some (size, at)) now = size == 0 || leb (at + e.stale_threshold * minute) now

  -- `trackerEventsIdleMinutes`, and the test of what it returns
  abbrev pub is_stuck : World → Bool
  is_stuck w = events_idle (stat_events w) (now_ms w)

  abbrev pub after_restart : WorkerAction → Option WorkerState × World → Tick World → Flow World
  after_restart a (none, w) t = stopped error (logged a (record t { world = w }))
  after_restart a (some state, w) t =
      next (record_restart state.pid (logged a (record t { world = w })))

  abbrev pub vpn_restarted : Tick World → Flow World
  vpn_restarted t =
      after_restart vpn_restart (restart_worker t.world)
        (record t { stale_handled_this_tick = true })

  abbrev pub rotated : Tick World → Tick World
  rotated t = record t {
    world = (rotate_vpn_ip t.world).1;
    rotations = t.rotations + 1;
    checkpoint = record t.checkpoint {
      last_vpn_rotation = some (now_iso (rotate_vpn_ip t.world).1);
    };
  }

  -- phase 0b
  unfoldable pub rotate_vpn : Tick World → Flow World
  rotate_vpn t =
      if should_rotate_vpn t.checkpoint.last_vpn_rotation (now_ms t.world)
      then if ((rotate_vpn_ip t.world).0 && e.autostart) && is_stuck (rotated t).world
        then vpn_restarted (rotated t)
        else next (rotated t)
      else next t

  -- the worker is stopped if it is orphaned
  abbrev pub stop_orphan : Bool → Tick World → Flow World
  stop_orphan false t = next t
  stop_orphan true t = perform stop_worker (logged stop t)

  abbrev pub start_missing : Bool → Tick World → Tick World
  start_missing false t = t
  start_missing true t = attempt start_worker_in_iterm (logged start t)

  abbrev pub kafka_after : Tick World → Tick World
  kafka_after t = if e.kafka_enabled then attempt start_kafka_in_iterm t else t

  -- `ensureCampaignRunning`
  unfoldable pub ensure_campaign_running : Tick World → Flow World
  ensure_campaign_running t =
      if not e.autostart || is_campaign_complete value (read_tracker t.world)
      then next t
      else let state = snapshot_worker t.world in
        then_ (stop_orphan state.orphaned t)
          (λ u. next (kafka_after (start_missing (not state.running || state.orphaned) u)))

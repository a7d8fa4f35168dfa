-- ===== src/Director/Loop.antt =====
-- A tick of the Director, and ticks in a row: `runOnce`, `loadCheckpoint` and `saveCheckpoint`,
-- src/director/loop.ts.
use msrouter.Prelude.{ℕ, false, Option, none, some, List, [], Text}
use msrouter.Director.Ledger.{LedgerEntry}
use msrouter.Director.Patches.{Patch}
use msrouter.Director.Events.{CampaignEvent, tail_events}
use msrouter.Director.Tracker.{TrackerSummary, read_tracker_summary}
use msrouter.Director.Classify.{DecisionClassification}
use msrouter.Director.Phases.{
  classes, observed_after, recover_stall, publish_observation, rebuild_if, clear_warning,
  save_checkpoint, same_count,
}
use msrouter.Director.Proposals.{propose_phase, poll_decisions, apply_phase}
use msrouter.Director.Supervision.{
  ensure_kafka_running, supervise_infra, rotate_vpn, ensure_campaign_running,
}
use msrouter.Director.Machine.{
  Settings, Checkpoint, Machine, Tick, Reason, ok, error, infra, Flow, next, stopped, then_,
  perform,
}
use msrouter.Prelude.{not, length}

-- `DirectorRunResult`
pub record DirectorRunResult : Type 0 where
  pub observed : ℕ
  pub classifications : ℕ
  pub proposed : ℕ
  pub applied : ℕ
  pub reason : Reason

unfoldable pub max_events : ℕ
max_events = 500

-- where nothing can be read
abbrev pub fresh : Checkpoint
fresh = record {
  events_read_offset = 0;
  last_tick_at = [];
  last_slack_ts = none;
  last_submitted = none;
  last_proposal_hash = none;
  stale_warning_active = false;
  last_observation_hash = none;
  last_vpn_rotation = none;
}

-- `loadCheckpoint`
abbrev pub load_checkpoint : Option Checkpoint → Checkpoint
load_checkpoint none = fresh
load_checkpoint (some c) = c

-- what lasts between two ticks
pub record Between (W : Type 0) : Type 0 where
  pub world : W
  pub disk : Option Checkpoint
  pub ledger : List (LedgerEntry Patch)

abbrev pub begun : {W : Type 0} → Between W → Tick W
begun b = record {
  world = b.world;
  disk = b.disk;
  ledger = b.ledger;
  checkpoint = load_checkpoint b.disk;
  observed = 0;
  classifications = 0;
  proposed = 0;
  stale_handled_this_tick = false;
  worker_log = [];
  rotations = 0;
  applied = [];
}

module _ (m : Machine) (log_path : Text) (e : Settings) where
  open m use {
    World, flush_outbox, read_tracker, open_events, rebuild_rag, parse, byte_length, value,
  }

  -- the end of phase 3 and the phases after it
  unfoldable pub act : List DecisionClassification → TrackerSummary → Tick World → Flow World
  act cs s t = then_ (publish_observation m log_path e s t) (λ u.
      let changed = not (same_count t.checkpoint.last_submitted s.submitted) in
      then_
        (propose_phase m log_path e cs s
          (clear_warning m log_path e (rebuild_if m log_path e changed u)))
        (λ v.
          then_ (poll_decisions m log_path e v)
            (λ x. then_ (apply_phase m log_path e x) (save_checkpoint m log_path e))))

  -- phase 3
  unfoldable pub judge : List CampaignEvent → TrackerSummary → Tick World → Flow World
  judge es s t =
      let cs = classes m log_path e es s t in
      then_ (recover_stall m log_path e cs (record t { classifications = length cs })) (act cs s)

  abbrev pub events_of : Tick World → List CampaignEvent × ℕ
  events_of t =
      tail_events parse byte_length (open_events t.checkpoint.events_read_offset t.world)
        t.checkpoint.events_read_offset max_events

  abbrev pub observed_by : Option TrackerSummary → Tick World → Flow World
  observed_by none t = stopped error t
  observed_by (some s) t = judge (events_of t).0 s (observed_after m log_path e (events_of t) t)

  -- phase 2
  unfoldable pub observe : Tick World → Flow World
  observe t = observed_by (read_tracker_summary value (read_tracker t.world)) t

  -- from the phases 1, 0b and 0a on
  abbrev pub from_worker : Tick World → Flow World
  from_worker t = then_ (ensure_campaign_running m log_path e t) observe

  abbrev pub from_vpn : Tick World → Flow World
  from_vpn t = then_ (rotate_vpn m log_path e t) from_worker

  abbrev pub from_infra : Tick World → Flow World
  from_infra t = then_ (supervise_infra m log_path e t) from_vpn

  unfoldable pub phases : Tick World → Flow World
  phases t = then_ (perform flush_outbox t) from_infra

  unfoldable pub run_tick : Between World → Flow World
  run_tick b = phases (ensure_kafka_running m log_path e (begun b))

  -- the state in which a run ends
  abbrev pub ended : Flow World → Tick World
  ended (next t) = t
  ended (stopped r t) = t

  abbrev pub result_of : Flow World → DirectorRunResult
  result_of (next t) = record {
    observed = t.observed;
    classifications = t.classifications;
    proposed = t.proposed;
    applied = 0;
    reason = ok;
  }
  result_of (stopped infra t) = record {
    observed = 0;
    classifications = 0;
    proposed = 0;
    applied = 0;
    reason = infra;
  }
  result_of (stopped r t) = record {
    observed = t.observed;
    classifications = t.classifications;
    proposed = t.proposed;
    applied = 0;
    reason = r;
  }

  -- `runOnce`
  unfoldable pub run_once : Between World → DirectorRunResult × Between World
  run_once b =
      let t = ended (run_tick b) in
      (result_of (run_tick b), record { world = t.world; disk = t.disk; ledger = t.ledger })

  abbrev pub left : Tick World → Between World
  left t = record { world = t.world; disk = t.disk; ledger = t.ledger }

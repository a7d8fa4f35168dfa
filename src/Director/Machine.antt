-- ===== src/Director/Machine.antt =====
-- What a tick of the Director works with: the settings, the checkpoint (src/director/types.ts) and the
-- state of a run of `runOnce`, src/director/loop.ts. The processes, the files, Slack and Kafka are the
-- parameter `Machine`, whose operations answer `false` or `none` where the source's throw. The
-- checkpoint file and the ledger are part of the state.
use msrouter.Prelude.{ℕ, Bool, true, false, Option, List, ◌∷◌, Text}
use msrouter.Json.{Json}
use msrouter.Director.Ledger.{LedgerEntry}
use msrouter.Director.Patches.{Patch}
use msrouter.Director.Outbox.{Ruling}
use msrouter.Director.Tracker.{TrackerSummary}
use msrouter.Director.Classify.{DecisionClassification}

pub record Settings : Type 0 where
  -- `DIRECTOR_AUTOSTART`
  pub autostart : Bool
  pub kafka_enabled : Bool
  -- `VPN_ROTATION_INTERVAL_MINUTES`, 0 for a negative one
  pub vpn_interval : ℕ
  -- `STALE_THRESHOLD_MINUTES`
  pub stale_threshold : ℕ

pub record Checkpoint : Type 0 where
  pub events_read_offset : ℕ
  pub last_tick_at : Text
  pub last_slack_ts : Option Text
  pub last_submitted : Option ℕ
  pub last_proposal_hash : Option Text
  -- an absent one is false
  pub stale_warning_active : Bool
  pub last_observation_hash : Option Text
  pub last_vpn_rotation : Option Text

pub record WorkerState : Type 0 where
  pub pid : ℕ
  pub running : Bool
  pub orphaned : Bool

-- how a write of the checkpoint file ends: it is written, it fails and the file is as before, or it
-- fails and what the file holds is no JSON
pub data Written : Type 0 where
  wrote kept torn : Written

pub record Machine : Type 1 where
  pub World : Type 0
  pub aborted : World → Bool
  pub now_iso : World → Text
  pub now_ms : World → ℕ
  -- `getTime` of a date
  pub millis : Text → Option ℕ
  -- `JSON.parse`, `Buffer.byteLength`, the value of a number, and the hash
  pub parse : Text → Option Json
  pub byte_length : Text → ℕ
  pub value : Text → ℕ
  pub md5 : Text → Text
  -- Kafka: the probe of the broker, its two ways to start, and a message
  pub kafka_up : World → Bool × World
  pub in_iterm : World → Bool
  pub start_headless : World → Bool × World
  pub start_kafka_in_iterm : World → Bool × World
  pub produce : World → Bool × World
  -- the worker
  pub ensure_cdp_running : World → Bool × World
  pub ensure_infrastructure_healthy : World → Option Bool × World
  pub snapshot_worker : World → WorkerState
  pub stop_worker : World → Bool × World
  pub start_worker_in_iterm : World → Bool × World
  pub restart_worker : World → Option WorkerState × World
  pub rotate_vpn_ip : World → Bool × World
  -- the campaign: its tracker, the size and the time of its event file, and the events after an offset
  pub read_tracker : World → Option Json
  pub stat_events : World → Option (ℕ × ℕ)
  pub open_events : ℕ → World → Option (ℕ × Text)
  -- the campaign's status script, whose failure is caught
  pub run_tick_status : World → World
  pub rebuild_rag : World → Bool × World
  -- the agent, with the prompts for its two uses
  pub propose : List DecisionClassification → TrackerSummary → World → Option (List Patch) × World
  pub execute : List Patch → World → Bool × World
  pub apply_patch : Patch → World → Bool × World
  -- Slack and the ledger file
  pub flush_outbox : World → Bool × World
  pub append_ledger : World → Bool × World
  pub can_read_ledger : World → Bool
  pub send_to_slack : Text → World → Bool × World
  pub poll_slack_messages : Option Text → World → (List (Text × Ruling) × Option Text) × World
  pub write_checkpoint : World → Written × World

-- what a tick does to the worker
pub data WorkerAction : Type 0 where
  -- `ensureInfrastructureHealthy` restarted it
  infra_restart : WorkerAction
  -- after a periodic rotation
  vpn_restart : WorkerAction
  -- because the campaign is stale
  stall_restart : WorkerAction
  stop : WorkerAction
  start : WorkerAction

pub record Tick (W : Type 0) : Type 0 where
  pub world : W
  -- the checkpoint file, `none` if there is none that can be read
  pub disk : Option Checkpoint
  pub ledger : List (LedgerEntry Patch)
  -- the variables of `runOnce`
  pub checkpoint : Checkpoint
  pub observed : ℕ
  pub classifications : ℕ
  pub proposed : ℕ
  pub stale_handled_this_tick : Bool
  -- what was done to the worker, the last first, how often the VPN was rotated, and what was applied
  pub worker_log : List WorkerAction
  pub rotations : ℕ
  pub applied : List Patch

pub data Reason : Type 0 where
  ok error infra : Reason

-- a tick that goes on, or has ended early
pub data Flow (W : Type 0) : Type 0 where
  next : Tick W → Flow W
  stopped : Reason → Tick W → Flow W

abbrev pub then_ : {W : Type 0} → Flow W → (Tick W → Flow W) → Flow W
then_ (next t) f = f t
then_ (stopped r t) f = stopped r t

-- a call that may throw
abbrev pub performed : {W : Type 0} → Bool × W → Tick W → Flow W
performed (true, w) t = next (record t { world = w })
performed (false, w) t = stopped error (record t { world = w })

abbrev pub perform : {W : Type 0} → (W → Bool × W) → Tick W → Flow W
perform f t = performed (f t.world) t

-- a call whose failure is caught
abbrev pub attempt : {W : Type 0} → (W → Bool × W) → Tick W → Tick W
attempt f t = record t { world = (f t.world).1 }

abbrev pub logged : {W : Type 0} → WorkerAction → Tick W → Tick W
logged a t = record t { worker_log = a ∷ t.worker_log }

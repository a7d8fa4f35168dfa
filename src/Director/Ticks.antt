-- ===== src/Director/Ticks.antt =====
-- Tests of the Director's ticks, its ledger, its tracker and its classification. Its machine counts
-- calls, and every call of it succeeds; the campaign has a tracker without a date and no events.
use msrouter.Prelude.{
  ℕ, ◌+◌, ◌≤◌, ◌≡◌, ◌≢◌, ◌↔◌, refl, Bool, true, false, not, ◌&&◌, Option, none, some, List, [], ◌∷◌,
  arith, text_eq, if◌then◌else◌, length, contains, get, some_of, Text, text, lower_unit,
}
use msrouter.Json.{Json, string, object, array, nil, cons, end, field, length_items, Items}
use msrouter.Routing.Distinct.{Distinct}
use msrouter.Director.Ledger.{LedgerEntry, proposed, decided, last_proposed, open_proposals}
use msrouter.Director.Approved.{
  open_approvals, approves, applies, open_approvals_lem, read_approved_patches, note_entries,
}
use msrouter.Director.Workflow.{replay, unknown, pending, due, ledger_refines}
use msrouter.Director.Tracker.{
  count_confirmed_submissions, summary, TrackerSummary, pos, read_tracker_summary, submitted_keys,
  application_key, is_campaign_complete,
}
use msrouter.Director.Confirmed.{has_key, count_confirmed_submissions_lem, summary-rows}
use msrouter.Director.Events.{CampaignEvent, tail_events}
use msrouter.Director.Classify.{is_excluded_title, is_portal_error, classify_events, classify}
use msrouter.Director.Classified.{
  classes_of, classify_events-classes_of, is_stale, classify-stale, LiesBehind,
}
use msrouter.Director.Patches.{Patch, low}
use msrouter.Director.Machine.{Settings, Checkpoint, Machine, wrote, Tick}
use msrouter.Director.Phases.{
  classes, observed_after, recover_stall, publish_observation, save_checkpoint, last_event_at,
  signature_of, observation_text,
}
use msrouter.Director.Proposals.{
  apply_phase, propose_phase, poll_decisions, post_decisions, post_proposals, apply_patches,
}
use msrouter.Director.Supervision.{
  ensure_kafka_running, supervise_infra, rotate_vpn, ensure_campaign_running, record_restart,
}
use msrouter.Director.Loop.{
  Between, begun, fresh, run_tick, ended, phases, observe, judge, act, max_events,
}
use msrouter.Director.Restarts.{observe_only, restarts, restarts_once}
use msrouter.Director.Stalls.{stall_restarts_in, stall_restarts-once}
use msrouter.Director.Losses.{never_stale, rotations_in, rotations-blind}
use msrouter.Director.Settled.{Goes, Settled, apply_phase-settles}

abbrev entry : Text → Option Text → Bool → LedgerEntry Text
entry id none b = record { kind = decided; patch_id = id; approved = b; patch = none }
entry id (some p) b = record { kind = proposed; patch_id = id; approved = false; patch = some p }

-- a proposal, its approval and its rejection
abbrev entries : List (LedgerEntry Text)
entries =
    entry (text "a") (some (text "p")) false
    ∷ entry (text "a") none true
    ∷ entry (text "a") none false
    ∷ []

open_approvals_lem_example : get (text "a") (open_approvals entries) ≡ (
    if some_of (approves (text "a")) entries && not (some_of (applies (text "a")) entries)
    then last_proposed (text "a") none entries
    else none)
open_approvals_lem_example = open_approvals_lem (text "a") entries

ledger_refines_example :
    (get (text "a") (open_proposals entries) ≡ pending (replay (text "a") unknown entries))
    × (get (text "a") (open_approvals entries) ≡ due (replay (text "a") unknown entries))
ledger_refines_example = ledger_refines (text "a") entries

abbrev row : Text → Text → Json
row id status = object (field (text "id") (string id) (field (text "status") (string status) end))

abbrev rows : Items
rows =
    cons (row (text "1") (text "submitted"))
      (cons (row (text "1") (text "submitted")) (cons (row (text "2") (text "attempted")) nil))

abbrev tracker : Json
tracker = object (field (text "applications") (array rows) end)

count_confirmed_submissions_lem_example :
    (ks : List Text) × (count_confirmed_submissions tracker ≡ some (length ks))
    × Distinct ks
    × ((k : Text) → contains k ks ≡ has_key k rows)
count_confirmed_submissions_lem_example = count_confirmed_submissions_lem tracker rows refl

summary-rows_example :
    (summary length tracker).submitted + (summary length tracker).attempted ≤ length_items rows
summary-rows_example = summary-rows length tracker rows refl

abbrev submission : CampaignEvent
submission = record {
  at = text "t";
  action = text "submitted";
  record_of = object (field (text "companyKey") (string (text "c")) end);
}

classify_events-classes_of_example :
    classify_events (submission ∷ submission ∷ []) [] ≡ classes_of [] (submission ∷ submission ∷ [])
classify_events-classes_of_example = classify_events-classes_of (submission ∷ submission ∷ [])

-- a date is the number of its minutes, in strokes
abbrev clock : Text → Option ℕ
clock s = some (length s)

abbrev no_events : List CampaignEvent
no_events = []

classify-stale_example :
    (some_of is_stale (classify clock 1 false no_events (text "now") (text "t")) ≡ true) ↔ (
      (false ≡ false)
      × (no_events ≡ [])
      × (text "t" ≢ [])
      × LiesBehind clock 1 (text "t") (text "now"))
classify-stale_example = classify-stale clock 1 false no_events (text "now") (text "t")

abbrev still : Option Json → Machine
still file = record {
  World = ℕ;
  aborted = λ w. false;
  now_iso = λ w. text "now";
  now_ms = λ w. w;
  millis = clock;
  parse = λ s. none;
  byte_length = length;
  value = length;
  md5 = λ s. s;
  kafka_up = λ w. (true, w + 1);
  in_iterm = λ w. true;
  start_headless = λ w. (true, w + 1);
  start_kafka_in_iterm = λ w. (true, w + 1);
  produce = λ w. (true, w + 1);
  ensure_cdp_running = λ w. (true, w + 1);
  ensure_infrastructure_healthy = λ w. (some false, w + 1);
  snapshot_worker = λ w. record { pid = 7; running = true; orphaned = false };
  stop_worker = λ w. (true, w + 1);
  start_worker_in_iterm = λ w. (true, w + 1);
  restart_worker = λ w. (some (record { pid = 8; running = true; orphaned = false }), w + 1);
  rotate_vpn_ip = λ w. (true, w + 1);
  read_tracker = λ w. file;
  stat_events = λ w. none;
  open_events = λ n w. none;
  run_tick_status = λ w. w + 1;
  rebuild_rag = λ w. (true, w + 1);
  propose = λ cs s w. (some [], w + 1);
  execute = λ ps w. (true, w + 1);
  apply_patch = λ p w. (true, w + 1);
  flush_outbox = λ w. (true, w + 1);
  append_ledger = λ w. (true, w + 1);
  can_read_ledger = λ w. true;
  send_to_slack = λ s w. (true, w + 1);
  poll_slack_messages = λ ts w. (([], none), w + 1);
  write_checkpoint = λ w. (wrote, w + 1);
}

abbrev settings : Bool → Settings
settings on = record {
  autostart = on;
  kafka_enabled = true;
  vpn_interval = 30;
  stale_threshold = 60;
}

abbrev log_file : Text
log_file = text "agent.log"

abbrev start_of : Option Checkpoint → Between ℕ
start_of disk = record { world = 0; disk = disk; ledger = [] }

observe_only_example :
    (ended
      (still (some tracker))
      log_file
      (settings false)
      (run_tick (still (some tracker)) log_file (settings false) (start_of none))).worker_log
    ≡ []
observe_only_example =
    observe_only (still (some tracker)) log_file (settings false) (start_of none) refl

restarts_once_example :
    restarts
      (ended
        (still (some tracker))
        log_file
        (settings true)
        (run_tick (still (some tracker)) log_file (settings true) (start_of none))).worker_log
    ≤ 1
restarts_once_example =
    restarts_once (still (some tracker)) log_file (settings true) (start_of none)

rotations-blind_example : rotations_in (still none) log_file (settings false) 3 (start_of none) ≡ 3
rotations-blind_example =
    rotations-blind (still none) log_file (settings false)
      (record { off = refl; periodic = refl; blind = λ w. refl; flushed = λ w. refl }) 3
      (start_of none) refl

abbrev undated : TrackerSummary
undated = record {
  submitted = 1;
  stats_submitted = 1;
  drift = pos 0;
  complete = false;
  attempted = 0;
  target = 5;
  last_applied = none;
  updated_at = [];
}

never_stale_example :
    some_of is_stale (
      classes
        (still none)
        log_file
        (settings true)
        []
        undated
        (observed_after (still none) log_file (settings true) ([], 4) (begun (start_of none))))
    ≡ false
never_stale_example =
    never_stale (still none) log_file (settings true) undated 4 (begun (start_of none)) refl
      (omega arith)

abbrev patch : Patch
patch = record {
  id = text "a";
  created_at = text "t";
  overrides = (text "KEY", text "1") ∷ [];
  rationale = text "r";
  risk = low;
}

abbrev approved_ledger : List (LedgerEntry Patch)
approved_ledger =
    record { kind = proposed; patch_id = text "a"; approved = false; patch = some patch }
    ∷ record { kind = decided; patch_id = text "a"; approved = true; patch = none }
    ∷ []

abbrev waiting_tick : Tick ℕ
waiting_tick = begun (record { world = 0; disk = none; ledger = approved_ledger })

apply_phase-settles_example :
    Goes
      (Settled (still none) log_file (settings true))
      (apply_phase (still none) log_file (settings true) waiting_tick)
apply_phase-settles_example =
    apply_phase-settles (still none) log_file (settings true)
      (record {
        appends = λ w. refl;
        sends = λ s w. refl;
        patches = λ p w. refl;
        executes = λ ps w. refl;
      })
      waiting_tick (refl, (tt, tt)) refl refl

-- the warning is active
abbrev warned : Checkpoint
warned = record fresh { stale_warning_active = true }

stall_restarts-once_example :
    stall_restarts_in (still (some tracker)) log_file (settings true) 1 (start_of (some warned)) ≡ 0
unfolding run_tick phases ensure_kafka_running supervise_infra rotate_vpn ensure_campaign_running
    observe read_tracker_summary summary judge recover_stall classes classify act
    publish_observation propose_phase poll_decisions apply_phase save_checkpoint tail_events
    count_confirmed_submissions submitted_keys application_key last_event_at classify_events
    record_restart post_decisions post_proposals read_approved_patches open_approvals note_entries
    is_campaign_complete max_events signature_of observation_text apply_patches
stall_restarts-once_example =
    stall_restarts-once (still (some tracker)) log_file (settings true) 1 (start_of (some warned))
      (λ w h. cc) refl (refl, tt)

titles : is_excluded_title (text "Head of AI") ≡ true
unfolding is_excluded_title lower_unit
titles = refl

tech_leads : is_excluded_title (text "Tech  Lead") ≡ true
unfolding is_excluded_title lower_unit
tech_leads = refl

ahead : is_excluded_title (text "Ahead") ≡ false
unfolding is_excluded_title lower_unit
ahead = refl

portals : is_portal_error (text "got 503") ≡ true
unfolding is_portal_error lower_unit
portals = refl

-- ===== src/Director/Phases.antt =====
-- The phases 2 and 3 of a tick of the Director: `runOnce`, src/director/loop.ts, and `observe`,
-- src/director/observe.ts.
use msrouter.Prelude.{
  ℕ, ◌+◌, Bool, true, false, not, ◌&&◌, ◌||◌, Option, none, some, List, [], ◌∷◌, ◌++◌, map, ◌==◌,
  nat_eq, text_eq, leb, ltb, if◌then◌else◌, length, some_of, Text, text, is_set,
}
use msrouter.Routing.Entries.{decimal}
use msrouter.Director.Ledger.{observation}
use msrouter.Director.Overrides.{text_leb}
use msrouter.Director.Events.{CampaignEvent}
use msrouter.Director.Tracker.{TrackerSummary, or_else}
use msrouter.Director.Classify.{
  Kind, good_apply, risky_apply, missed_apply, bad_skip, duplicate_risk, portal_error,
  stale_campaign, Severity, info, warn, critical, DecisionClassification, classify,
}
use msrouter.Director.Classified.{is_stale}
use msrouter.Director.Messages.{signed, build_observation_message}
use msrouter.Director.Machine.{
  Settings, Checkpoint, WorkerState, Machine, stall_restart, Written, wrote, kept, torn, Tick,
  error, Flow, next, stopped, then_, attempt, logged,
}
use msrouter.Director.Supervision.{post, entry_of, publish_event, record_restart}

abbrev insert_text : Text → List Text → List Text
insert_text s [] = s ∷ []
insert_text s (t ∷ ts) =
    let rest = insert_text s ts in if text_leb s t then s ∷ t ∷ ts else t ∷ rest

-- `sort`
abbrev sort_texts : List Text → List Text
sort_texts [] = []
sort_texts (s ∷ ss) = insert_text s (sort_texts ss)

-- `join('|')`
abbrev join_bars : List Text → Text
join_bars [] = []
join_bars (s ∷ []) = s
join_bars (s ∷ t ∷ ts) = s ++ (text "|" ++ join_bars (t ∷ ts))

abbrev kind_text : Kind → Text
kind_text good_apply = text "good-apply"
kind_text risky_apply = text "risky-apply"
kind_text missed_apply = text "missed-apply"
kind_text bad_skip = text "bad-skip"
kind_text duplicate_risk = text "duplicate-risk"
kind_text portal_error = text "portal-error"
kind_text stale_campaign = text "stale-campaign"

abbrev severity_text : Severity → Text
severity_text info = text "info"
severity_text warn = text "warn"
severity_text critical = text "critical"

-- what `hashClassifications` hashes
unfoldable pub signature_of : List DecisionClassification → Text
signature_of cs = join_bars (
    sort_texts (
      map
        (λ c.
          kind_text c.kind
          ++ (text ":" ++ (severity_text c.severity ++ (text ":" ++ or_else c.evidence c.reason))))
        cs))

-- what the observation's hash is of
unfoldable pub observation_text : TrackerSummary → Text
observation_text s =
    text "{\"submitted\":"
    ++ (decimal s.submitted
        ++ (text ",\"target\":"
            ++ (decimal s.target
                ++ (text ",\"statsSubmitted\":"
                    ++ (decimal s.stats_submitted
                        ++ (text ",\"drift\":"
                            ++ (signed s.drift
                                ++ (text ",\"attempted\":"
                                    ++ (decimal s.attempted ++ text "}")))))))))

abbrev pub same_count : Option ℕ → ℕ → Bool
same_count none n = false
same_count (some k) n = k == n

abbrev pub same_text : Option Text → Text → Bool
same_text none s = false
same_text (some t) s = t == s

abbrev pub last_at : Text → List CampaignEvent → Text
last_at at [] = at
last_at at (e ∷ es) = last_at e.at es

module _ (m : Machine) (log_path : Text) (e : Settings) where
  open m use {
    World, aborted, now_iso, millis, restart_worker, rotate_vpn_ip, read_tracker, open_events,
    run_tick_status, rebuild_rag, parse, byte_length, value, md5, propose, execute, apply_patch,
    can_read_ledger, poll_slack_messages, write_checkpoint,
  }

  abbrev pub written : Written → World → Tick World → Flow World
  written wrote w t = next (record t { world = w; disk = some t.checkpoint })
  written kept w t = stopped error (record t { world = w })
  written torn w t = stopped error (record t { world = w; disk = none })

  -- `saveCheckpoint`
  unfoldable pub save_checkpoint : Tick World → Flow World
  save_checkpoint t = let (how, w) = write_checkpoint t.world in written how w t

  -- `lastEventAt`: the time of the last event, or else of the tracker, or else of this very read
  unfoldable pub last_event_at : List CampaignEvent → TrackerSummary → Checkpoint → Text
  last_event_at (x ∷ es) s c = last_at x.at es
  last_event_at [] s c = if is_set s.updated_at then s.updated_at else c.last_tick_at

  -- phase 2: the checkpoint after a read of the events
  abbrev pub observed_after : List CampaignEvent × ℕ → Tick World → Tick World
  observed_after r t =
      let w = run_tick_status t.world in
      record t {
        world = w;
        observed = length r.0;
        checkpoint = record t.checkpoint { events_read_offset = r.1; last_tick_at = now_iso w };
      }

  -- phase 3
  unfoldable pub classes :
      List CampaignEvent → TrackerSummary → Tick World → List DecisionClassification
  classes es s t =
      classify millis e.stale_threshold s.complete es (now_iso t.world)
        (last_event_at es s t.checkpoint)

  -- phase 3a: the bookkeeping of a stalled campaign
  abbrev pub stalled : Tick World → Tick World
  stalled t =
      let w = if leb 1 e.vpn_interval then (rotate_vpn_ip t.world).1 else t.world in
      record t {
        world = w;
        rotations = t.rotations + (if leb 1 e.vpn_interval then 1 else 0);
        checkpoint = record t.checkpoint {
          last_vpn_rotation = some (now_iso w);
          stale_warning_active = true;
        };
        stale_handled_this_tick = true;
      }

  abbrev pub restarted : Option WorkerState × World → Tick World → Flow World
  restarted (none, w) t = stopped error (logged stall_restart (record t { world = w }))
  restarted (some state, w) t =
      then_ (save_checkpoint (logged stall_restart (record t { world = w })))
        (λ u. next (record_restart m log_path e state.pid u))

  unfoldable pub recover_stall : List DecisionClassification → Tick World → Flow World
  recover_stall cs t =
      if some_of is_stale cs
        && (not t.checkpoint.stale_warning_active && not t.stale_handled_this_tick)
      then if e.autostart
        then restarted (restart_worker (stalled t).world) (stalled t)
        else save_checkpoint (stalled t)
      else next t

  -- what is published of a change, under the checkpoint that says so
  abbrev pub noted : TrackerSummary → Tick World → Tick World
  noted s t = record t {
    checkpoint = record t.checkpoint {
      last_submitted = some s.submitted;
      last_observation_hash = some (md5 (observation_text s));
    };
  }

  unfoldable pub publish_observation : TrackerSummary → Tick World → Flow World
  publish_observation s t =
      if not (same_count t.checkpoint.last_submitted s.submitted)
        || not (same_text t.checkpoint.last_observation_hash (md5 (observation_text s)))
      then post m log_path e (entry_of observation [] false none) (build_observation_message s)
          (publish_event m log_path e (noted s t))
      else next t

  abbrev pub rebuild_if : Bool → Tick World → Tick World
  rebuild_if true t = attempt rebuild_rag t
  rebuild_if false t = t

  -- the end of phase 3: the warning is cleared when there are events
  abbrev pub clear_warning : Tick World → Tick World
  clear_warning t =
      if ltb 0 t.observed && t.checkpoint.stale_warning_active
      then record t { checkpoint = record t.checkpoint { stale_warning_active = false } }
      else t

-- ===== src/Director/Whole.antt =====
-- The rules of `Director/Rules` carry a predicate through a whole tick: `runOnce`,
-- src/director/loop.ts.
use msrouter.Prelude.{◌≡◌, refl, false, Option, none, some, List, Text, length}
use msrouter.Director.Events.{CampaignEvent}
use msrouter.Director.Tracker.{TrackerSummary}
use msrouter.Director.Classify.{DecisionClassification}
use msrouter.Director.Machine.{Settings, Machine, Tick, Flow, next, stopped, perform}
use msrouter.Director.Supervision.{supervise_infra, rotate_vpn, ensure_campaign_running}
use msrouter.Director.Phases.{recover_stall, publish_observation, observed_after}
use msrouter.Director.Proposals.{propose_phase, poll_decisions, apply_phase}
use msrouter.Director.Loop.{
  begun, Between, act, judge, events_of, observed_by, observe, phases, run_tick, ended,
}
use msrouter.Director.Rules.{
  Holds, IsStable, IsSupervised, IsKept, stopped-Holds, then_-Holds, then_-weaken, perform-Holds,
}
use msrouter.Director.Early.{
  ensure_kafka_running-holds, supervise_infra-Holds, rotate_vpn-Holds,
  ensure_campaign_running-Holds,
}
use msrouter.Director.Late.{
  recover_stall-Holds, publish_observation-Holds, rebuild_if-holds, clear_warning-holds,
  propose_phase-Holds, poll_decisions-Holds, apply_phase-Holds, save_checkpoint-Holds,
}

module _ (m : Machine) (log_path : Text) (e : Settings) (P : Tick m.World → Type 0)
    (k : IsKept m e P) where
  open m use {World, flush_outbox, read_tracker, value}

  ended-holds : (f : Flow World) → Holds P f → P (ended m log_path e f)
  unfolding Holds
  ended-holds (next t) h = h
  ended-holds (stopped r t) h = h

  act-Holds :
      (cs : List DecisionClassification) (s : TrackerSummary) (t : Tick World)
      → P t
      → Holds P (act m log_path e cs s t)
  unfolding act
  act-Holds cs s t h =
      then_-Holds P (publish_observation m log_path e s t) _
        (publish_observation-Holds m log_path e P k s t h)
        (λ u hu.
          then_-Holds P (propose_phase m log_path e cs s _) _
            (propose_phase-Holds m log_path e P k cs s _
              (clear_warning-holds m log_path e P k _ (rebuild_if-holds m log_path e P k _ u hu)))
            (λ v hv.
              then_-Holds P (poll_decisions m log_path e v) _
                (poll_decisions-Holds m log_path e P k v hv)
                (λ x hx.
                  then_-Holds P (apply_phase m log_path e x) _
                    (apply_phase-Holds m log_path e P k x hx)
                    (save_checkpoint-Holds m log_path e P k))))

  judge-Holds :
      (es : List CampaignEvent) (s : TrackerSummary) (t : Tick World)
      → t.observed ≡ length es
      → P t
      → Holds P (judge m log_path e es s t)
  unfolding judge
  judge-Holds es s t n h =
      then_-Holds P (recover_stall m log_path e _ _) _
        (recover_stall-Holds m log_path e P k es s t _ n (k.classified t _ h)) (act-Holds _ s)

  observed_by-Holds :
      (r : Option TrackerSummary) (t : Tick World)
      → t.observed ≡ 0
      → P t
      → Holds P (observed_by m log_path e r t)
  observed_by-Holds none t z h = stopped-Holds P _ t h
  observed_by-Holds (some s) t z h =
      judge-Holds _ s (observed_after m log_path e (events_of m log_path e t) t) refl
        (k.observed _ _ _ _ z (k.supervised.stable.world t _ h))

  abbrev Quiet : Tick World → Type 0
  Quiet t = P t × (t.observed ≡ 0)

  abbrev First : Tick World → Type 0
  First t = P t × (t.observed ≡ 0) × (t.stale_handled_this_tick ≡ false)

  Quiet-IsSupervised : IsSupervised m e Quiet
  Quiet-IsSupervised = record {
    stable = record {
      world = λ t w h. (k.supervised.stable.world t w h.0, h.1);
      ledger = λ t x h. (k.supervised.stable.ledger t x h.0, h.1);
    };
    infra_restarted = λ t on h. (k.supervised.infra_restarted t on h.0, h.1);
    rotated = λ t at h. (k.supervised.rotated t at h.0, h.1);
    vpn_restarted = λ t on first h. (k.supervised.vpn_restarted t on first h.0, h.1);
    stopped_worker = λ t on h. (k.supervised.stopped_worker t on h.0, h.1);
    started_worker = λ t on h. (k.supervised.started_worker t on h.0, h.1);
  }

  First-IsStable : IsStable First
  First-IsStable = record {
    world = λ t w h. (k.supervised.stable.world t w h.0, h.1, h.2);
    ledger = λ t x h. (k.supervised.stable.ledger t x h.0, h.1, h.2);
  }

  observe-Holds : (t : Tick World) → Quiet t → Holds P (observe m log_path e t)
  unfolding observe
  observe-Holds t h = observed_by-Holds _ t h.1 h.0

  phases-Holds : (t : Tick World) → First t → Holds P (phases m log_path e t)
  unfolding phases
  phases-Holds t h =
      let quiet : (u : Tick World) → First u → Quiet u = λ u p. (p.0, p.1) in
      then_-weaken First P (perform flush_outbox t) _
        (perform-Holds First First-IsStable flush_outbox t h) (λ u p. p.0)
        (λ u hu.
          then_-weaken First P (supervise_infra m log_path e u) _
            (supervise_infra-Holds m log_path e First First-IsStable
              (λ v on p. (k.supervised.infra_restarted v on p.0, p.1, p.2)) u hu)
            (λ v p. p.0)
            (λ v hv.
              then_-weaken Quiet P (rotate_vpn m log_path e v) _
                (rotate_vpn-Holds m log_path e Quiet Quiet-IsSupervised v hv.2 (quiet v hv))
                (λ x p. p.0)
                (λ x hx.
                  then_-weaken Quiet P (ensure_campaign_running m log_path e x) _
                    (ensure_campaign_running-Holds m log_path e Quiet Quiet-IsSupervised x hx)
                    (λ y p. p.0) observe-Holds)))

  -- What holds when a tick begins, and is kept by each of its steps, holds when it ends, however it
  -- ends.
  pub run_tick-holds :
      (b : Between World) → P (begun b) → P (ended m log_path e (run_tick m log_path e b))
  unfolding run_tick
  run_tick-holds b h = ended-holds _ (
      phases-Holds _
        (ensure_kafka_running-holds m log_path e First First-IsStable (begun b) (h, refl, refl)))

-- ===== src/Director/Restarts.antt =====
-- How often a tick of the Director acts on the worker: `runOnce`, src/director/loop.ts.
use msrouter.Prelude.{
  ℕ, ◌+◌, ◌≤◌, ◌≡◌, refl, Bool, true, false, List, [], ◌∷◌, arith, nat_eq, if◌then◌else◌, Text,
}
use msrouter.Director.Machine.{
  Settings, Machine, WorkerAction, infra_restart, vpn_restart, stall_restart, stop, start,
}
use msrouter.Director.Loop.{Between, run_tick, ended}
use msrouter.Director.Rules.{IsKept}
use msrouter.Director.Whole.{run_tick-holds}

-- The restarts that a tick chooses to make.
abbrev pub is_restart : WorkerAction → ℕ
is_restart vpn_restart = 1
is_restart stall_restart = 1
is_restart _ = 0

abbrev pub restarts : List WorkerAction → ℕ
restarts [] = 0
restarts (a ∷ as_) = is_restart a + restarts as_

module _ (m : Machine) (log_path : Text) (e : Settings) where
  open m use {World}

  -- the rules for what only the log and the flag of the tick determine
  module _ (Q : List WorkerAction → Bool → Type 0)
      (supervisor : (a : WorkerAction) (l : List WorkerAction) (b : Bool)
        → e.autostart ≡ true
        → is_restart a ≡ 0
        → Q l b
        → Q (a ∷ l) b)
      (restart : (a : WorkerAction) (l : List WorkerAction)
        → e.autostart ≡ true
        → Q l false
        → Q (a ∷ l) true)
      (handled : (l : List WorkerAction) → Q l false → Q l true) where
    first_time : (l : List WorkerAction) (b : Bool) → b ≡ false → Q l b → Q l false
    first_time l false first h = h
    first_time l true first h = cc

    log-IsKept : IsKept m e (λ t. Q t.worker_log t.stale_handled_this_tick)
    log-IsKept = record {
      supervised = record {
        stable = record { world = λ t w h. h; ledger = λ t x h. h };
        infra_restarted = λ t on h. supervisor infra_restart _ _ on refl h;
        rotated = λ t at h. h;
        vpn_restarted = λ t on first h. restart _ _ on (first_time _ _ first h);
        stopped_worker = λ t on h. supervisor stop _ _ on refl h;
        started_worker = λ t on h. supervisor start _ _ on refl h;
      };
      observed = λ t n o at z h. h;
      classified = λ t n h. h;
      stalled = λ t at n z calm first h. handled _ (first_time _ _ first h);
      stall_restarted = λ t at n on z calm first h. restart _ _ on (first_time _ _ first h);
      saved = λ t h. h;
      torn_file = λ t w o h. h;
      noted = λ t n x h. h;
      cleared = λ t o h. h;
      warned = λ t h. h;
      hashed = λ t x h. h;
      counted = λ t n h. h;
      polled = λ t ts h. h;
      applied = λ t p h. h;
    }

  -- Where autostart is off, a tick neither starts nor stops nor restarts the worker, whatever happens.
  pub observe_only :
      (b : Between World)
      → e.autostart ≡ false
      → (ended m log_path e (run_tick m log_path e b)).worker_log ≡ []
  observe_only b off =
      run_tick-holds m log_path e (λ t. t.worker_log ≡ [])
        (log-IsKept (λ l handled. l ≡ []) (λ a l b on no_restart h. cc) (λ a l on h. cc) (λ l h. h))
        b refl

  abbrev Once : List WorkerAction → Bool → Type 0
  Once l handled = restarts l ≤ (if handled then 1 else 0)

  Once-supervisor :
      (a : WorkerAction) (l : List WorkerAction) (b : Bool)
      → is_restart a ≡ 0
      → Once l b
      → Once (a ∷ l) b
  Once-supervisor a l b z h = rw z (omega (arith, h))

  Once-restart : (a : WorkerAction) (l : List WorkerAction) → Once l false → Once (a ∷ l) true
  Once-restart vpn_restart l h = omega (arith, h)
  Once-restart stall_restart l h = omega (arith, h)
  Once-restart infra_restart l h = omega (arith, h)
  Once-restart stop l h = omega (arith, h)
  Once-restart start l h = omega (arith, h)

  at_most_one : (l : List WorkerAction) (b : Bool) → Once l b → restarts l ≤ 1
  at_most_one l true h = h
  at_most_one l false h = omega (arith, h)

  -- A tick restarts the worker at most once, be it for a new address or for a stalled campaign.
  pub restarts_once :
      (b : Between World) → restarts (ended m log_path e (run_tick m log_path e b)).worker_log ≤ 1
  restarts_once b =
      at_most_one _ (ended m log_path e (run_tick m log_path e b)).stale_handled_this_tick (
        run_tick-holds m log_path e (λ t. Once t.worker_log t.stale_handled_this_tick)
          (log-IsKept Once (λ a l b on z h. Once-supervisor a l b z h)
            (λ a l on h. Once-restart a l h) (λ l h. omega (arith, h)))
          b (omega arith))

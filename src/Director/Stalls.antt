-- ===== src/Director/Stalls.antt =====
-- What keeps a tick of the Director from acting on a stalled campaign again: `runOnce`,
-- src/director/loop.ts.
use msrouter.Prelude.{
  ℕ, zero, suc, ◌+◌, ◌≡◌, refl, Bool, true, false, not, ◌&&◌, ◌||◌, Option, none, some, List, [],
  ◌∷◌, arith, ◌==◌, nat_eq, ltb, Text,
}
use msrouter.Director.Machine.{
  Settings, Checkpoint, Machine, WorkerAction, stall_restart, torn, Tick,
}
use msrouter.Director.Loop.{Between, run_tick, ended, left, load_checkpoint}
use msrouter.Director.Rules.{IsKept}
use msrouter.Director.Whole.{run_tick-holds}

-- How often some actions restart the worker because the campaign is stale.
abbrev pub is_stall_restart : WorkerAction → ℕ
is_stall_restart stall_restart = 1
is_stall_restart _ = 0

abbrev pub stall_restarts : List WorkerAction → ℕ
stall_restarts [] = 0
stall_restarts (a ∷ as_) = is_stall_restart a + stall_restarts as_

-- Whether the checkpoint file says that the warning is active.
abbrev pub is_warned : Option Checkpoint → Bool
is_warned none = false
is_warned (some c) = c.stale_warning_active

module _ (m : Machine) (log_path : Text) (e : Settings) where
  open m use {World, write_checkpoint}

  -- what a warning, once it is saved, keeps until there are events
  abbrev warned : Tick World → Bool
  warned t = not (t.observed == 0) || (t.checkpoint.stale_warning_active && is_warned t.disk)

  abbrev Warned : Tick World → Type 0
  Warned t = (stall_restarts t.worker_log ≡ 0) × (warned t ≡ true)

  warned-disk :
      (n : ℕ) (c d : Bool) → (not (n == 0) || (c && d)) ≡ true → (not (n == 0) || (c && c)) ≡ true
  warned-disk n c d h = ground arith

  warned-observed :
      (n k : ℕ) (b : Bool) → n ≡ 0 → (not (n == 0) || b) ≡ true → (not (k == 0) || b) ≡ true
  warned-observed n k b z h = ground arith

  warned-not : (n : ℕ) (c d : Bool) → n ≡ 0 → c ≡ false → (not (n == 0) || (c && d)) ≡ true → ⊥
  warned-not n c d z calm h = ground arith

  warned-cleared : (n : ℕ) (b : Bool) → ltb 0 n ≡ true → (not (n == 0) || b) ≡ true
  warned-cleared n b h = ground arith

  warned-kept : (n : ℕ) (c d : Bool) → n ≡ 0 → (not (n == 0) || (c && d)) ≡ true → d ≡ true
  warned-kept n c d z h = ground arith

  warned-flag :
      (n : ℕ) (c d : Bool)
      → (not (n == 0) || (c && d)) ≡ true
      → (not (n == 0) || (true && d)) ≡ true
  warned-flag n c d h = ground arith

  Warned-IsKept : ((w : World) → (write_checkpoint w).0 ≡ torn → ⊥) → IsKept m e Warned
  Warned-IsKept whole = record {
    supervised = record {
      stable = record { world = λ t w h. h; ledger = λ t x h. h };
      infra_restarted = λ t on h. (omega (arith, h.0), h.1);
      rotated = λ t at h. h;
      vpn_restarted = λ t on first h. (omega (arith, h.0), h.1);
      stopped_worker = λ t on h. (omega (arith, h.0), h.1);
      started_worker = λ t on h. (omega (arith, h.0), h.1);
    };
    observed = λ t n o at z h. (h.0, warned-observed t.observed n _ z h.1);
    classified = λ t n h. h;
    stalled = λ t at n z calm first h.
        absurd (warned-not t.observed t.checkpoint.stale_warning_active _ z calm h.1);
    stall_restarted = λ t at n on z calm first h.
        absurd (warned-not t.observed t.checkpoint.stale_warning_active _ z calm h.1);
    saved = λ t h. (h.0, warned-disk t.observed _ (is_warned t.disk) h.1);
    torn_file = λ t w o h. absurd (whole w o);
    noted = λ t n x h. h;
    cleared = λ t o h. (h.0, warned-cleared t.observed _ o);
    warned = λ t h. (h.0, warned-flag t.observed t.checkpoint.stale_warning_active _ h.1);
    hashed = λ t x h. h;
    counted = λ t n h. h;
    polled = λ t ts h. h;
    applied = λ t p h. h;
  }

  warned-begun :
      (d : Option Checkpoint) → is_warned d ≡ true → (load_checkpoint d).stale_warning_active ≡ true
  warned-begun none h = cc
  warned-begun (some c) h = h

  Warned-tick :
      (b : Between World)
      → ((w : World) → (write_checkpoint w).0 ≡ torn → ⊥)
      → is_warned b.disk ≡ true
      → Warned (ended m log_path e (run_tick m log_path e b))
  Warned-tick b whole h =
      run_tick-holds m log_path e Warned (Warned-IsKept whole) b
        (refl, rw (warned-begun b.disk h, h) refl)

  -- The restarts for a stalled campaign over some ticks in a row.
  unfoldable pub stall_restarts_in : ℕ → Between World → ℕ
  stall_restarts_in zero b = 0
  stall_restarts_in (suc n) b =
      let t = ended m log_path e (run_tick m log_path e b) in
      stall_restarts t.worker_log + stall_restarts_in n (left m log_path e t)

  -- None of some ticks in a row sees an event.
  abbrev pub SeeNothing : ℕ → Between World → Type 0
  SeeNothing zero b = Unit
  SeeNothing (suc n) b =
      let t = ended m log_path e (run_tick m log_path e b) in
      (t.observed ≡ 0) × SeeNothing n (left m log_path e t)

  -- Once the checkpoint file says that the warning is active, no number of ticks in a row restarts the
  -- worker for a stalled campaign as long as none of them sees an event, whatever else fails in them,
  -- provided that a failing write never spoils the file.
  pub stall_restarts-once :
      (n : ℕ) (b : Between World)
      → ((w : World) → (write_checkpoint w).0 ≡ torn → ⊥)
      → is_warned b.disk ≡ true
      → SeeNothing n b
      → stall_restarts_in n b ≡ 0
  unfolding stall_restarts_in
  stall_restarts-once zero b whole h quiet = refl
  stall_restarts-once (suc n) b whole h quiet =
      let t = ended m log_path e (run_tick m log_path e b) in
      let here = Warned-tick b whole h in
      let later : stall_restarts_in n (left m log_path e t) ≡ 0 =
        stall_restarts-once n (left m log_path e t) whole
          (warned-kept t.observed _ _ quiet.0 here.1) quiet.1 in
      rw (here.0, later) refl

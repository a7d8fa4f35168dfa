-- ===== src/Director/Rules.antt =====
-- What has to be shown of a predicate on the states of a tick for it to hold however the tick ends, one
-- rule for each change of the state, with what the code knows there: src/director/loop.ts.
use msrouter.Prelude.{
  ℕ, ◌+◌, ◌≡◌, refl, if◌then◌else◌, Bool, true, false, Option, none, some, [], ◌∷◌, ◌++◌, ltb, Text,
}
use msrouter.Director.Ledger.{LedgerEntry}
use msrouter.Director.Patches.{Patch}
use msrouter.Director.Machine.{
  Settings, Checkpoint, Machine, infra_restart, vpn_restart, stall_restart, stop, start, torn, Tick,
  Reason, Flow, next, stopped, then_, performed, perform, logged,
}

-- What holds of the state in which a tick ends or goes on.
unfoldable pub Holds : {W : Type 0} → (Tick W → Type 0) → Flow W → Type 0
Holds P (next t) = P t
Holds P (stopped r t) = P t

abbrev pub with_checkpoint : {W : Type 0} → Tick W → Checkpoint → Tick W
with_checkpoint t c = record t { checkpoint = c }

-- the bookkeeping of a rotation, and of a stalled campaign
abbrev pub rotated_at : {W : Type 0} → Text → Tick W → Tick W
rotated_at at t = record t {
  rotations = t.rotations + 1;
  checkpoint = record t.checkpoint { last_vpn_rotation = some at };
}

abbrev pub stalled_at : {W : Type 0} → Text → ℕ → Tick W → Tick W
stalled_at at n t = record t {
  rotations = n;
  checkpoint = record t.checkpoint { last_vpn_rotation = some at; stale_warning_active = true };
  stale_handled_this_tick = true;
}

-- the rules that all phases need
pub record IsStable {W : Type 0} (P : Tick W → Type 0) : Type 0 where
  pub world : (t : Tick W) (w : W) → P t → P (record t { world = w })
  pub ledger :
      (t : Tick W) (x : LedgerEntry Patch) → P t → P (record t { ledger = t.ledger ++ x ∷ [] })

-- the rules for the phases before the events are read
pub record IsSupervised (m : Machine) (e : Settings) (P : Tick m.World → Type 0) : Type 0 where
  pub stable : IsStable P
  pub infra_restarted : (t : Tick m.World) → e.autostart ≡ true → P t → P (logged infra_restart t)
  pub rotated : (t : Tick m.World) (at : Text) → P t → P (rotated_at at t)
  pub vpn_restarted :
      (t : Tick m.World)
      → e.autostart ≡ true
      → t.stale_handled_this_tick ≡ false
      → P t
      → P (logged vpn_restart (record t { stale_handled_this_tick = true }))
  pub stopped_worker : (t : Tick m.World) → e.autostart ≡ true → P t → P (logged stop t)
  pub started_worker : (t : Tick m.World) → e.autostart ≡ true → P t → P (logged start t)

pub record IsKept (m : Machine) (e : Settings) (P : Tick m.World → Type 0) : Type 0 where
  pub supervised : IsSupervised m e P
  pub observed :
      (t : Tick m.World) (n offset : ℕ) (at : Text)
      → t.observed ≡ 0
      → P t
      → P (record t {
        observed = n;
        checkpoint = record t.checkpoint { events_read_offset = offset; last_tick_at = at };
      })
  pub classified : (t : Tick m.World) (n : ℕ) → P t → P (record t { classifications = n })
  -- the stall recovery, without and with a restart
  pub stalled :
      (t : Tick m.World) (at : Text) (n : ℕ)
      → t.observed ≡ 0
      → t.checkpoint.stale_warning_active ≡ false
      → t.stale_handled_this_tick ≡ false
      → P t
      → P (stalled_at at n t)
  pub stall_restarted :
      (t : Tick m.World) (at : Text) (n : ℕ)
      → e.autostart ≡ true
      → t.observed ≡ 0
      → t.checkpoint.stale_warning_active ≡ false
      → t.stale_handled_this_tick ≡ false
      → P t
      → P (logged stall_restart (stalled_at at n t))
  pub saved : (t : Tick m.World) → P t → P (record t { disk = some t.checkpoint })
  pub torn_file :
      (t : Tick m.World) (w : m.World)
      → (m.write_checkpoint w).0 ≡ torn
      → P t
      → P (record t { disk = none })
  pub noted :
      (t : Tick m.World) (n : Option ℕ) (h : Option Text)
      → P t
      → P (
          with_checkpoint t (record t.checkpoint { last_submitted = n; last_observation_hash = h }))
  pub cleared :
      (t : Tick m.World)
      → ltb 0 t.observed ≡ true
      → P t
      → P (with_checkpoint t (record t.checkpoint { stale_warning_active = false }))
  pub warned :
      (t : Tick m.World)
      → P t
      → P (with_checkpoint t (record t.checkpoint { stale_warning_active = true }))
  pub hashed :
      (t : Tick m.World) (h : Option Text)
      → P t
      → P (with_checkpoint t (record t.checkpoint { last_proposal_hash = h }))
  pub counted : (t : Tick m.World) (n : ℕ) → P t → P (record t { proposed = n })
  pub polled :
      (t : Tick m.World) (ts : Option Text)
      → P t
      → P (with_checkpoint t (record t.checkpoint { last_slack_ts = ts }))
  pub applied : (t : Tick m.World) (p : Patch) → P t → P (record t { applied = p ∷ t.applied })

module _ {W : Type 0} (P : Tick W → Type 0) where
  pub next-Holds : (t : Tick W) → P t → Holds P (next t)
  unfolding Holds
  next-Holds t h = h

  pub stopped-Holds : (r : Reason) (t : Tick W) → P t → Holds P (stopped r t)
  unfolding Holds
  stopped-Holds r t h = h

  pub then_-Holds :
      (f : Flow W) (g : Tick W → Flow W)
      → Holds P f
      → ((t : Tick W) → P t → Holds P (g t))
      → Holds P (then_ f g)
  unfolding Holds
  then_-Holds (next t) g h k = k t h
  then_-Holds (stopped r t) g h k = h

  pub if-Holds :
      (b : Bool) (f g : Flow W)
      → (b ≡ true → Holds P f)
      → (b ≡ false → Holds P g)
      → Holds P (if b then f else g)
  if-Holds true f g h k = h refl
  if-Holds false f g h k = k refl

  pub if-holds :
      (b : Bool) (t u : Tick W) → (b ≡ true → P t) → (b ≡ false → P u) → P (if b then t else u)
  if-holds true t u h k = h refl
  if-holds false t u h k = k refl

  pub performed-Holds : (s : IsStable P) (r : Bool × W) (t : Tick W) → P t → Holds P (performed r t)
  performed-Holds s (true, w) t h = next-Holds _ (s.world t w h)
  performed-Holds s (false, w) t h = stopped-Holds _ _ (s.world t w h)

  pub perform-Holds : (s : IsStable P) (f : W → Bool × W) (t : Tick W) → P t → Holds P (perform f t)
  perform-Holds s f t h = performed-Holds s (f t.world) t h

-- The next phase may need more than what is shown of the end.
pub then_-weaken :
    {W : Type 0} (P Q : Tick W → Type 0) (f : Flow W) (g : Tick W → Flow W)
    → Holds P f
    → ((t : Tick W) → P t → Q t)
    → ((t : Tick W) → P t → Holds Q (g t))
    → Holds Q (then_ f g)
unfolding Holds
then_-weaken P Q (next t) g h w k = k t h
then_-weaken P Q (stopped r t) g h w k = w t h

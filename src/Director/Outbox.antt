-- ===== src/Director/Outbox.antt =====
-- The Slack outbox and the commands that come from Slack: `SlackSurface`, src/director/surface.ts. The
-- delivery of a message and the time are the parameter `Slack`; the outbox file is its entries.
use msrouter.Prelude.{
  ℕ, zero, suc, ◌+◌, ◌≤◌, ◌<◌, ◌≡◌, refl, subst, inl, inr, Bool, true, false, ◌&&◌, ◌||◌, Option,
  none, some, List, [], ◌∷◌, ◌++◌, arith, ◌==◌, nat_eq, leb, if◌then◌else◌, starts_with, drop,
  length, trim, to_lower, is_blank, Text, text, All, Bool-cases,
}

pub record OutboxEntry : Type 0 where
  pub id : Text
  pub message : Text
  pub attempts : ℕ
  pub last_error_at : Text

pub data Ruling : Type 0 where
  approved rejected : Ruling

abbrev is_id_unit : ℕ → Bool
is_id_unit c =
    (leb b'a' c && leb c b'z')
    || ((leb b'A' c && leb c b'Z') || ((leb b'0' c && leb c b'9') || (c == b'_' || c == b'-')))

abbrev pub id_at : Text → Text
id_at [] = []
id_at (c ∷ s) = let rest = id_at s in if is_id_unit c then c ∷ rest else []

abbrev pub skip_blanks : Text → Text
skip_blanks [] = []
skip_blanks (c ∷ s) = let rest = skip_blanks s in if is_blank c then rest else c ∷ s

-- the id after a word and a blank, the empty text where there is none
abbrev pub after_word : Text → Text
after_word [] = []
after_word (c ∷ s) = if is_blank c then id_at (skip_blanks s) else []

-- `/^word\s+([a-zA-Z0-9_-]+)/i`
abbrev pub match_word : Text → Text → Text
match_word word s = if starts_with word (to_lower s) then after_word (drop (length word) s) else []

abbrev or_reject : Text → Text → Option (Text × Ruling)
or_reject (c ∷ id) other = some (c ∷ id, approved)
or_reject [] (c ∷ id) = some (c ∷ id, rejected)
or_reject [] [] = none

-- what a message decides
unfoldable pub decision_of : Text → Option (Text × Ruling)
decision_of message =
    let s = trim message in or_reject (match_word (text "approve") s) (match_word (text "reject") s)

abbrev cons_decision : Option (Text × Ruling) → List (Text × Ruling) → List (Text × Ruling)
cons_decision none ds = ds
cons_decision (some d) ds = d ∷ ds

-- the decisions of the messages that the poller's queue held
unfoldable pub decisions_of : List Text → List (Text × Ruling)
unfolding decision_of
decisions_of [] = []
decisions_of (m ∷ ms) = cons_decision (decision_of m) (decisions_of ms)

pub record Slack : Type 1 where
  pub World : Type 0
  -- `deliverToSlack`
  pub deliver_to_slack : Text → World → Bool × World
  pub now_iso : World → Text
  pub new_id : World → Text

unfoldable pub max_outbox_attempts : ℕ
max_outbox_attempts = 10

module _ (u : Slack) where
  open u use {World, deliver_to_slack, now_iso, new_id}

  -- an entry that was not delivered, unless it was tried too often
  abbrev pub keep_entry : OutboxEntry → Text → List OutboxEntry → List OutboxEntry
  keep_entry e at rest =
      if leb max_outbox_attempts (e.attempts + 1)
      then rest
      else record e { attempts = e.attempts + 1; last_error_at = at } ∷ rest

  abbrev pub after_delivery : Bool → OutboxEntry → Text → List OutboxEntry → List OutboxEntry
  after_delivery true e at rest = rest
  after_delivery false e at rest = keep_entry e at rest

  -- `flushOutbox`: what remains in the outbox
  unfoldable pub flush_outbox : List OutboxEntry → World → List OutboxEntry × World
  unfolding max_outbox_attempts
  flush_outbox [] w = ([], w)
  flush_outbox (e ∷ es) w =
      let (sent, w') = deliver_to_slack e.message w in
      let (rest, v) = flush_outbox es w' in (after_delivery sent e (now_iso w') rest, v)

  -- `sendToSlack`
  unfoldable pub send_to_slack : Text → List OutboxEntry → World → List OutboxEntry × World
  send_to_slack message es w =
      let (sent, w') = deliver_to_slack message w in
      if sent then (es, w') else (
        es ++ record { id = new_id w'; message = message; attempts = 0; last_error_at = [] } ∷ [],
        w',
      )

  -- Flushes in a row.
  unfoldable pub flushes : ℕ → List OutboxEntry → World → List OutboxEntry × World
  unfolding flush_outbox
  flushes zero es w = (es, w)
  flushes (suc n) es w = let (rest, w') = flush_outbox es w in flushes n rest w'

  -- Entries that were tried at least `k` times, and fewer than ten times.
  abbrev pub Tried : ℕ → OutboxEntry → Type 0
  Tried k e = (k ≤ e.attempts) × (e.attempts < 10)

  flush_outbox-Tried :
      (k : ℕ) (es : List OutboxEntry) (w : World)
      → All (λ e. k ≤ e.attempts) es
      → All (Tried (k + 1)) (flush_outbox es w).0
  unfolding flush_outbox max_outbox_attempts
  flush_outbox-Tried k [] w h = tt
  flush_outbox-Tried k (e ∷ es) w h = elim (Bool-cases (deliver_to_slack e.message w).0) [
    | inl sent ↦ rw sent (flush_outbox-Tried k es (deliver_to_slack e.message w).1 h.1)
    | inr failed ↦ elim (Bool-cases (leb 10 (e.attempts + 1))) [
      | inl often ↦
          rw (failed, often) (flush_outbox-Tried k es (deliver_to_slack e.message w).1 h.1)
      | inr more ↦
          let few : e.attempts + 1 < 10 = ground arith in
          let again : k + 1 ≤ e.attempts + 1 = omega (arith, h.0) in
          rw (failed, more)
            ((again, few), flush_outbox-Tried k es (deliver_to_slack e.message w).1 h.1)
    ]
  ]

  attempts_of : (k : ℕ) (es : List OutboxEntry) → All (Tried k) es → All (λ e. k ≤ e.attempts) es
  attempts_of k [] h = tt
  attempts_of k (e ∷ es) h = (h.0.0, attempts_of k es h.1)

  flushes-Tried :
      (n k : ℕ) (es : List OutboxEntry) (w : World)
      → All (Tried k) es
      → All (Tried (k + n)) (flushes n es w).0
  unfolding flushes
  flushes-Tried zero k es w h = let e : k ≡ k + 0 = omega arith in subst (λ j. All (Tried j) es) e h
  flushes-Tried (suc n) k es w h =
      let e : (k + 1) + n ≡ k + suc n = omega arith in
      subst (λ j. All (Tried j) (flushes n (flush_outbox es w).0 (flush_outbox es w).1).0) e
        (flushes-Tried n (k + 1) (flush_outbox es w).0 (flush_outbox es w).1
          (flush_outbox-Tried k es w (attempts_of k es h)))

  nil-Tried : (es : List OutboxEntry) → All (Tried 10) es → es ≡ []
  nil-Tried [] h = refl
  nil-Tried (e ∷ es) h = absurd (omega (arith, h.0))

  -- Whatever Slack does, an outbox whose entries were tried fewer than ten times each is empty after ten
  -- flushes: no message stays in it forever.
  pub flushes-empty :
      (es : List OutboxEntry) (w : World) → All (Tried 0) es → (flushes 10 es w).0 ≡ []
  flushes-empty es w h = nil-Tried (flushes 10 es w).0 (flushes-Tried 10 0 es w h)

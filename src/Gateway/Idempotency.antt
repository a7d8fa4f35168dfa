-- ===== src/Gateway/Idempotency.antt =====
-- The idempotency cache, src/gateway/idempotency.ts. A body is any type; an in-flight promise is a
-- number, and what it settles to is known when it is awaited. The time is an argument.
use msrouter.Prelude.{
  ℕ, ◌+◌, ◌-◌, ◌≤◌, ◌<◌, ◌≡◌, ◌≢◌, refl, ap, ◌∙◌, inl, inr, Bool, true, false, Option, none, some,
  [], ◌∷◌, arith, ◌==◌, text_eq, leb, if◌then◌else◌, length, Text, Map, get, set, delete, has,
  get-set, get-delete, length-set, Bool-cases, text_beq_iff,
}

-- `IdemEntry`
pub data IdemEntry (B : Type 0) : Type 0 where
  value : (status : ℕ) (body : B) (exp : ℕ) → IdemEntry B
  promise : (promise : ℕ) (exp : ℕ) → IdemEntry B

abbrev pub idem_ttl_ms : ℕ
idem_ttl_ms = 60000

abbrev pub idem_max_entries : ℕ
idem_max_entries = 1000

-- `IdemHandle`: its key and its promise
pub record IdemHandle : Type 0 where
  pub key : Text
  pub promise_id : ℕ

abbrev pub Cache : Type 0 → Type 0
Cache B = Map Text (IdemEntry B)

module _ {B : Type 0} where
  -- the loop of `pruneIdem`: at least one entry goes, and then until the count is used up
  unfoldable pub drop_oldest : ℕ → Cache B → Cache B
  drop_oldest to_drop [] = []
  drop_oldest to_drop (x ∷ m) =
      let rest = drop_oldest (to_drop - 1) m in if leb (to_drop - 1) 0 then m else rest

  unfoldable pub prune_idem : Cache B → Cache B
  unfolding drop_oldest
  prune_idem m =
      if leb (length m) idem_max_entries then m else drop_oldest (length m - idem_max_entries) m

  -- what is sent for an entry, or none where the caller must run fresh. `settled` says what the
  -- awaited promise came to, none if it was rejected.
  unfoldable pub answer_of : (ℕ → Option (ℕ × B)) → ℕ → Option (IdemEntry B) → Option (ℕ × B)
  answer_of settled now none = none
  answer_of settled now (some (value status body exp)) =
      if leb exp now then none else some (status, body)
  answer_of settled now (some (promise p exp)) = if leb exp now then none else settled p

  unfoldable pub idempotency_hit : (ℕ → Option (ℕ × B)) → ℕ → Text → Cache B → Option (ℕ × B)
  unfolding answer_of
  idempotency_hit settled now key m = answer_of settled now (get key m)

  -- `new_promise` is the promise that is made; an absent or empty key and a stream have none
  unfoldable pub begin_idem : ℕ → Text → Bool → ℕ → Cache B → Option IdemHandle × Cache B
  unfolding prune_idem
  begin_idem now [] stream new_promise m = (none, m)
  begin_idem now key true new_promise m = (none, m)
  begin_idem now (c ∷ cs) false new_promise m = (
    some (record { key = c ∷ cs; promise_id = new_promise }),
    prune_idem (set (c ∷ cs) (promise new_promise (now + idem_ttl_ms)) m),
  )

  -- what the cache becomes; the promise itself resolves to the same status and body
  unfoldable pub store_idem_result : ℕ → IdemHandle → ℕ → B → Cache B → Cache B
  unfolding prune_idem
  store_idem_result now idem status body m =
      prune_idem (set idem.key (value status body (now + idem_ttl_ms)) m)

  unfoldable pub drop_idem : Text → Cache B → Cache B
  drop_idem [] m = m
  drop_idem key m = delete key m

  length-drop_oldest :
      (n : ℕ) (m : Cache B) → 0 < n → n ≤ length m → length (drop_oldest n m) ≡ length m - n
  unfolding drop_oldest
  length-drop_oldest n [] p h = absurd (omega arith)
  length-drop_oldest n (x ∷ m) p h = elim (Bool-cases (leb (n - 1) 0)) [
    | inl last ↦ rw last (ground arith)
    | inr more ↦
        rw more (length-drop_oldest (n - 1) m (ground arith) (ground arith) ∙ omega (arith, p))
  ]

  length-prune_idem : (m : Cache B) → length (prune_idem m) ≤ idem_max_entries
  unfolding prune_idem
  length-prune_idem m = elim (Bool-cases (leb (length m) idem_max_entries)) [
    | inl fits ↦ rw fits (ground arith)
    | inr full ↦ rw full (
        let n = length m - idem_max_entries in
        omega (arith, length-drop_oldest n m (ground arith) (omega arith)))
  ]

  -- An entry that is set is found after the pruning, in a cache that was within its bound.
  get-drop_one :
      (k : Text) (v : IdemEntry B) (m : Cache B)
      → has k m ≡ false
      → 0 < length m
      → get k (drop_oldest 1 (set k v m)) ≡ some v
  unfolding drop_oldest
  get-drop_one k v [] h p = absurd (omega arith)
  get-drop_one k v ((j, w) ∷ m) h p = elim (Bool-cases (j == k)) [
    | inl same ↦ absurd (ground arith)
    | inr other ↦ rw other (get-set k k v m ∙ ground (arith, text_beq_iff k k))
  ]

  get-prune_idem :
      (k : Text) (v : IdemEntry B) (m : Cache B)
      → length m ≤ idem_max_entries
      → get k (prune_idem (set k v m)) ≡ some v
  unfolding prune_idem
  get-prune_idem k v m h = elim (Bool-cases (leb (length (set k v m)) idem_max_entries)) [
    | inl fits ↦ rw fits (get-set k k v m ∙ ground (arith, text_beq_iff k k))
    | inr full ↦
        let new : has k m ≡ false = ground (arith, length-set k v m) in
        let one : length (set k v m) - idem_max_entries ≡ 1 = ground (arith, length-set k v m) in
        rw (full, one) (get-drop_one k v m new (ground (arith, length-set k v m)))
  ]

  -- Whatever is begun or stored, the cache holds at most a thousand entries afterwards.
  idem_bounded :
      (now : ℕ) (idem : IdemHandle) (status : ℕ) (body : B) (key : Text) (stream : Bool) (p : ℕ)
      (m : Cache B)
      → length m ≤ idem_max_entries
      → (length (store_idem_result now idem status body m) ≤ idem_max_entries)
        × (length (begin_idem now key stream p m).1 ≤ idem_max_entries)
  unfolding store_idem_result begin_idem
  idem_bounded now idem status body key stream p m h =
      (length-prune_idem (set idem.key (value status body (now + idem_ttl_ms)) m), begun key stream)
    where
      begun :
          (key : Text) (stream : Bool) → length (begin_idem now key stream p m).1 ≤ idem_max_entries
      begun [] stream = h
      begun (c ∷ cs) true = h
      begun (c ∷ cs) false = length-prune_idem (set (c ∷ cs) (promise p (now + idem_ttl_ms)) m)

  -- A double submit gets the same answer: for a minute after a response is stored under a key of a
  -- cache within its bound, a request with that key is answered by the stored status and body.
  pub store-hit :
      (settled : ℕ → Option (ℕ × B)) (now later : ℕ) (idem : IdemHandle) (status : ℕ) (body : B)
      (m : Cache B)
      → length m ≤ idem_max_entries
      → later < now + idem_ttl_ms
      → idempotency_hit settled later idem.key (store_idem_result now idem status body m)
        ≡ some (status, body)
  unfolding idempotency_hit store_idem_result
  store-hit settled now later idem status body m h soon =
      ap (answer_of settled later)
        (get-prune_idem idem.key (value status body (now + idem_ttl_ms)) m h)
      ∙ ground arith

  -- Concurrent requests share one call: for a minute after a request with a key has begun, another one
  -- with that key gets what the first one's promise settles to, and runs fresh if that is rejected.
  begin-hit :
      (settled : ℕ → Option (ℕ × B)) (now later : ℕ) (key : Text) (p : ℕ) (m : Cache B)
      → length m ≤ idem_max_entries
      → key ≢ []
      → later < now + idem_ttl_ms
      → idempotency_hit settled later key (begin_idem now key false p m).1 ≡ settled p
  unfolding idempotency_hit begin_idem
  begin-hit settled now later [] p m h some_key soon = absurd (some_key refl)
  begin-hit settled now later (c ∷ cs) p m h some_key soon =
      ap (answer_of settled later) (get-prune_idem (c ∷ cs) (promise p (now + idem_ttl_ms)) m h)
      ∙ ground arith

  -- A request with a key that was just dropped, and is not empty, runs fresh.
  drop-hit :
      (settled : ℕ → Option (ℕ × B)) (now : ℕ) (key : Text) (m : Cache B)
      → key ≢ []
      → idempotency_hit settled now key (drop_idem key m) ≡ none
  unfolding idempotency_hit drop_idem
  drop-hit settled now [] m some_key = absurd (some_key refl)
  drop-hit settled now (c ∷ cs) m some_key =
      let gone : get (c ∷ cs) (delete (c ∷ cs) m) ≡ none =
        get-delete (c ∷ cs) (c ∷ cs) m ∙ ground (arith, text_beq_iff (c ∷ cs) (c ∷ cs)) in
      ap (answer_of settled now) gone

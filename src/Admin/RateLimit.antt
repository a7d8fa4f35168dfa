-- ===== src/Admin/RateLimit.antt =====
-- The login limiter, src/admin/rateLimit.ts. A key is the client's address, a text; the time is an
-- argument. The window's length is positive.
use msrouter.Prelude.{
  ℕ, ◌+◌, ◌*◌, ◌/◌, ◌<◌, ◌≡◌, ◌⊎◌, refl, ap, sym, subst, ◌∙◌, inl, inr, Bool, true, false, ◌||◌,
  Option, none, some, List, [], ◌∷◌, arith, ◌==◌, nat_eq, text_eq, ltb, leb, if◌then◌else◌, keep,
  Text, Map, get, set, get-set, Bool-cases, text_beq_iff, All,
}

pub record Bucket : Type 0 where
  pub window_start : ℕ
  pub count : ℕ

module _ (max_attempts window_ms : ℕ) where
  -- `Math.floor(nowMs / windowMs) * windowMs`
  unfoldable pub window_of : ℕ → ℕ
  window_of now = (now / window_ms) * window_ms

  abbrev pub current : ℕ → Text × Bucket → Bool
  current start x = x.1.window_start == start

  unfoldable pub prune : ℕ → Map Text Bucket → Map Text Bucket
  prune start m = keep (current start) m

  abbrev fresh : Text → ℕ → Map Text Bucket → Bool × Map Text Bucket
  fresh key start m = (true, set key (record { window_start = start; count = 1 }) m)

  -- what `allow` does with the bucket that it finds
  unfoldable pub allow_bucket : Text → ℕ → Map Text Bucket → Option Bucket → Bool × Map Text Bucket
  allow_bucket key start m none = fresh key start m
  allow_bucket key start m (some b) =
      if b.window_start == start
      then (
        leb (b.count + 1) max_attempts,
        set key (record { window_start = start; count = b.count + 1 }) m,
      )
      else fresh key start m

  -- the body of `allow`, in the window that starts at `start`
  unfoldable pub allow_in : Text → ℕ → Map Text Bucket → Bool × Map Text Bucket
  unfolding prune allow_bucket
  allow_in key start m = allow_bucket key start (prune start m) (get key (prune start m))

  unfoldable pub allow : Text → ℕ → Map Text Bucket → Bool × Map Text Bucket
  unfolding window_of allow_in
  allow key now m = allow_in key (window_of now) m

  -- The attempts that the buckets remember of a key in a window.
  abbrev pub count_of : ℕ → Option Bucket → ℕ
  count_of start none = 0
  count_of start (some b) = if b.window_start == start then b.count else 0

  abbrev in_window : ℕ → Option Bucket → Option Bucket
  in_window start none = none
  in_window start (some b) = if b.window_start == start then some b else none

  abbrev pub used : Text → ℕ → Map Text Bucket → ℕ
  used key start m = count_of start (get key m)

  -- Attempts in turn, each of a key at a time, and how many of them are of one key.
  unfoldable pub attempts : List (Text × ℕ) → Map Text Bucket → Map Text Bucket
  unfolding allow
  attempts [] m = m
  attempts ((key, now) ∷ as') m = attempts as' (allow key now m).1

  abbrev pub count_key : Text → List (Text × ℕ) → ℕ
  count_key key [] = 0
  count_key key ((k, now) ∷ as') =
      let rest = count_key key as' in if k == key then rest + 1 else rest

  -- One key has one bucket, and a bucket has counted an attempt.
  abbrev pub IsWellFormed : Map Text Bucket → Type 0
  IsWellFormed [] = Unit
  IsWellFormed ((k, b) ∷ m) = (get k m ≡ none) × (0 < b.count) × IsWellFormed m

  get-prune-none :
      (k : Text) (start : ℕ) (m : Map Text Bucket) → get k m ≡ none → get k (prune start m) ≡ none
  unfolding prune
  get-prune-none k start [] h = refl
  get-prune-none k start ((j, b) ∷ m) h = ground (arith, get-prune-none k start m)

  prune-IsWellFormed :
      (start : ℕ) (m : Map Text Bucket) → IsWellFormed m → IsWellFormed (prune start m)
  unfolding prune
  prune-IsWellFormed start [] h = tt
  prune-IsWellFormed start ((j, b) ∷ m) h = elim (Bool-cases (b.window_start == start)) [
    | inl same ↦ rw same (get-prune-none j start m h.0, h.1, prune-IsWellFormed start m h.2)
    | inr old ↦ rw old (prune-IsWellFormed start m h.2)
  ]

  set-IsWellFormed :
      (k : Text) (b : Bucket) (m : Map Text Bucket)
      → 0 < b.count
      → IsWellFormed m
      → IsWellFormed (set k b m)
  set-IsWellFormed k b [] p h = (refl, p, tt)
  set-IsWellFormed k b ((j, c) ∷ m) p h = elim (Bool-cases (j == k)) [
    | inl same ↦ rw same (h.0, p, h.2)
    | inr other ↦ rw other (
      get-set j k b m ∙ ground (arith, text_beq_iff j k, text_beq_iff k j),
      h.1,
      set-IsWellFormed k b m p h.2,
    )
  ]

  -- Pruning forgets no attempt of the window.
  used-prune :
      (key : Text) (start : ℕ) (m : Map Text Bucket)
      → IsWellFormed m
      → used key start (prune start m) ≡ used key start m
  unfolding prune
  used-prune key start [] h = refl
  used-prune key start ((j, b) ∷ m) h = elim (Bool-cases (b.window_start == start)) [
    | inl same ↦ rw same (ground (arith, used-prune key start m h.2))
    | inr old ↦ elim (Bool-cases (j == key)) [
      | inl mine ↦
          rw (old, mine, old)
            (ap (count_of start) (
              ap (λ k. get k (prune start m)) (sym ((text_beq_iff j key).0 mine))
              ∙ get-prune-none j start m h.0))
      | inr other ↦ rw (old, other) (used-prune key start m h.2)
    ]
  ]

  abbrev count_or : Option Bucket → ℕ
  count_or none = 1
  count_or (some b) = b.count

  get-positive : (key : Text) (m : Map Text Bucket) → IsWellFormed m → 0 < count_or (get key m)
  get-positive key [] h = omega arith
  get-positive key ((j, c) ∷ m) h = elim (Bool-cases (j == key)) [
    | inl mine ↦ rw mine h.1
    | inr other ↦ rw other (get-positive key m h.2)
  ]

  Allowed : Bool × Map Text Bucket → Text → Text → ℕ → Map Text Bucket → Type 0
  Allowed r key other start m =
      (r.0 ≡ (used key start m == 0 || leb (used key start m + 1) max_attempts))
      × (used other start r.1 ≡ (if key == other then used key start m + 1 else used other start m))
      × IsWellFormed r.1

  -- a fresh bucket, when the key has none in the window
  fresh-Allowed :
      (key other : Text) (start : ℕ) (m : Map Text Bucket)
      → IsWellFormed m
      → (used other start (fresh key start m).1 ≡ (if key == other then 1 else used other start m))
        × IsWellFormed (fresh key start m).1
  fresh-Allowed key other start m h = (
    rw (get-set other key (record { window_start = start; count = 1 }) m) (ground arith),
    set-IsWellFormed key _ m (omega arith) h,
  )

  allow_bucket-Allowed :
      (key other : Text) (start : ℕ) (m : Map Text Bucket) (o : Option Bucket)
      → IsWellFormed m
      → get key m ≡ o
      → Allowed (allow_bucket key start m o) key other start m
  unfolding allow_bucket Allowed
  allow_bucket-Allowed key other start m none h e =
      let f = fresh-Allowed key other start m h in rw e (refl, f.0, f.1)
  allow_bucket-Allowed key other start m (some b) h e =
      elim (Bool-cases (b.window_start == start)) [
        | inl same ↦
            let positive : 0 < b.count = subst (λ o. 0 < count_or o) e (get-positive key m h) in
            rw (e, same)
              (
                ground (arith, positive),
                rw (get-set other key (record { window_start = start; count = b.count + 1 }) m)
                    (ground arith),
                set-IsWellFormed key _ m (omega arith) h,
              )
        | inr old ↦ let f = fresh-Allowed key other start m h in rw (e, old) (refl, f.0, f.1)
      ]

  -- One attempt in a window, over well-formed buckets: it is allowed if it is the first of its key
  -- there or no more than `maxAttempts` are made with it; it counts for its key whatever the answer,
  -- and for no other; the buckets stay well-formed.
  allow_in_lem :
      (key other : Text) (start : ℕ) (m : Map Text Bucket)
      → IsWellFormed m
      → ((allow_in key start m).0
          ≡ (used key start m == 0 || leb (used key start m + 1) max_attempts))
        × (used other start (allow_in key start m).1
            ≡ (if key == other then used key start m + 1 else used other start m))
        × IsWellFormed (allow_in key start m).1
  unfolding allow_in Allowed
  allow_in_lem key other start m h =
      let r =
        allow_bucket-Allowed key other start (prune start m) _ (prune-IsWellFormed start m h)
          refl in
      (
        r.0 ∙ rw (used-prune key start m h),
        r.1 ∙ rw (used-prune key start m h, used-prune other start m h),
        r.2,
      )

  abbrev pub InWindow : ℕ → Text × ℕ → Type 0
  InWindow start a = window_of a.1 ≡ start

  attempts-used :
      (key : Text) (start : ℕ) (as' : List (Text × ℕ)) (m : Map Text Bucket)
      → IsWellFormed m
      → All (InWindow start) as'
      → (used key start (attempts as' m) ≡ used key start m + count_key key as')
        × IsWellFormed (attempts as' m)
  unfolding attempts allow
  attempts-used key start [] m h w = (omega arith, h)
  attempts-used key start ((k, now) ∷ as') m h w =
      let one = allow_in_lem k key start m h in
      let rest = attempts-used key start as' (allow_in k start m).1 one.2 w.1 in
      rw w.0 (rest.0 ∙ rw one.1 (counted (Bool-cases (k == key))), rest.1)
    where
      counted :
          ((k == key) ≡ true) ⊎ ((k == key) ≡ false)
          → (if k == key then used k start m + 1 else used key start m) + count_key key as'
            ≡ used key start m + count_key key ((k, now) ∷ as')
      counted (inl mine) =
          rw ((text_beq_iff k key).0 mine) (ground (arith, (text_beq_iff key key).1 refl))
      counted (inr other) = ground arith

  -- After any attempts of any keys in one window, on well-formed buckets, a key that had none before
  -- them is allowed its next attempt there exactly if it has made none yet or fewer than `maxAttempts`.
  pub allow_after_attempts :
      (key : Text) (start now : ℕ) (as' : List (Text × ℕ)) (m : Map Text Bucket)
      → IsWellFormed m
      → used key start m ≡ 0
      → All (InWindow start) as'
      → window_of now ≡ start
      → (allow key now (attempts as' m)).0
        ≡ (count_key key as' == 0 || ltb (count_key key as') max_attempts)
  unfolding allow
  allow_after_attempts key start now as' m h none_yet w here =
      let past = attempts-used key start as' m h w in
      rw here (
        (allow_in_lem key key start (attempts as' m) past.1).0
        ∙ rw (past.0, none_yet) (ground arith))

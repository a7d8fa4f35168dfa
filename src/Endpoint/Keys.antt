-- ===== src/Endpoint/Keys.antt =====
-- Which key of the OpenRouter pool an attempt uses: `attempt`, src/providers/openrouter.ts.
use msrouter.Prelude.{
  ℕ, zero, suc, ◌+◌, ◌%◌, ◌<◌, ◌≡◌, subst, inl, inr, refl, ap, ◌∙◌, true, false, Option, some, List,
  [], ◌∷◌, ◌++◌, Perm, arith, ◌==◌, nat_eq, nat_beq_iff, length, length-append, length-perm,
  get_elem?, contains, contains-perm, erase, Text, is_set, Bool-cases, All,
}
use native.Mathlib.Nat.{mod-lt, mod-eq_of_lt}
use mathlib.Core.List.{append_assoc}
use mathlib.Core.Option.{some_inj}
use msrouter.Rotation.{RotationQueue, item_at, demote}
use msrouter.Rotation.Order.{demote-order}
use msrouter.Json.{Fields}
use msrouter.Endpoint.Call.{Network, post, with_model}
use msrouter.Endpoint.Pool.{
  PoolConfig, indices_from, is_key_failure, index_or_first, pool_options, settle_key, pool_attempt,
  attempt-calls,
}

get_elem?-in :
    {A : Type 0} (xs : List A) (i : ℕ) → i < length xs → (x : A) × (get_elem? xs i ≡ some x)
get_elem?-in [] i h = absurd (omega arith)
get_elem?-in (x ∷ xs) zero h = (x, refl)
get_elem?-in (x ∷ xs) (suc i) h = get_elem?-in xs i (omega arith)

some-positive : {A : Type 0} (xs : List A) (i : ℕ) (x : A) → get_elem? xs i ≡ some x → 0 < length xs
some-positive [] i x h = cc
some-positive (y ∷ ys) i x h = omega arith

All-get_elem? :
    {A : Type 0} (P : A → Type 0) (xs : List A) (i : ℕ) (x : A)
    → get_elem? xs i ≡ some x
    → All P xs
    → P x
All-get_elem? P [] i x h all = cc
All-get_elem? P (y ∷ ys) zero x h all = subst P (some_inj.0 h) all.0
All-get_elem? P (y ∷ ys) (suc i) x h all = All-get_elem? P ys i x h all.1

get_elem?-contains : (xs : List ℕ) (i x : ℕ) → get_elem? xs i ≡ some x → contains x xs ≡ true
get_elem?-contains [] i x h = cc
get_elem?-contains (y ∷ ys) zero x h = ground (arith, nat_beq_iff y x)
get_elem?-contains (y ∷ ys) (suc i) x h = ground (arith, get_elem?-contains ys i x h)

get_elem?-append : (xs ys : List ℕ) (k : ℕ) → get_elem? (xs ++ ys) (length xs + k) ≡ get_elem? ys k
get_elem?-append [] ys k = let e : 0 + k ≡ k = omega arith in ap (get_elem? ys) e
get_elem?-append (x ∷ xs) ys k =
    let e : suc (length xs) + k ≡ suc (length xs + k) = omega arith in
    ap (get_elem? (x ∷ xs ++ ys)) e ∙ get_elem?-append xs ys k

contains-indices :
    (i x : ℕ) (keys : List Text) → contains x (indices_from i keys) ≡ true → x < i + length keys
contains-indices i x [] h = cc
contains-indices i x (k ∷ ks) h = elim (Bool-cases (i == x)) [
  | inl same ↦ let e = (nat_beq_iff i x).0 same in omega (arith, e)
  | inr other ↦ let later = contains-indices (i + 1) x ks (rw other at h) in omega (arith, later)
]

length-indices : (i : ℕ) (keys : List Text) → length (indices_from i keys) ≡ length keys
length-indices i [] = refl
length-indices i (k ∷ ks) = omega (arith, length-indices (i + 1) ks)

erase-append :
    (a : ℕ) (pre rest : List ℕ) → contains a pre ≡ false → erase a (pre ++ a ∷ rest) ≡ pre ++ rest
erase-append a [] rest h = rw (nat_beq_iff a a).1 refl
erase-append a (x ∷ pre) rest h = elim (Bool-cases (x == a)) [
  | inl same ↦ cc (rw same at h)
  | inr other ↦ rw other (ap (◌∷◌ x) (erase-append a pre rest (rw other at h)))
]

contains-middle : (a : ℕ) (pre rest : List ℕ) → contains a (pre ++ a ∷ rest) ≡ true
contains-middle a [] rest = ground (arith, nat_beq_iff a a)
contains-middle a (x ∷ pre) rest = ground (arith, contains-middle a pre rest)

item_at-in :
    (i : ℕ) (q : RotationQueue ℕ) (xs : List ℕ)
    → q.order ≡ xs
    → 0 < length xs
    → item_at i q ≡ get_elem? xs (i % length xs)
unfolding item_at
item_at-in i q [] e h = absurd (omega arith)
item_at-in i q (x ∷ xs) e h = rw e refl

module _ (q : RotationQueue ℕ) (pre : List ℕ) where
  item_at-offset :
      (rest : List ℕ) (k : ℕ)
      → q.order ≡ pre ++ rest
      → k < length rest
      → item_at (length pre + k) q ≡ get_elem? rest k
  item_at-offset rest k order inside =
      let sized = length-append pre rest in
      let within : length pre + k < length (pre ++ rest) = omega (arith, sized, inside) in
      let some_there : 0 < length (pre ++ rest) = omega (arith, within) in
      item_at-in (length pre + k) q (pre ++ rest) order some_there
      ∙ ap (get_elem? (pre ++ rest)) (mod-eq_of_lt within)
      ∙ get_elem?-append pre rest k

  demote-moves :
      (a : ℕ) (rest : List ℕ)
      → q.order ≡ pre ++ a ∷ rest
      → contains a pre ≡ false
      → (demote a q).order ≡ pre ++ (rest ++ a ∷ [])
  demote-moves a rest order fresh =
      rw (demote-order a q, order, contains-middle a pre rest, erase-append a pre rest fresh)
        (append_assoc pre rest (a ∷ []))

module _ (c : PoolConfig) where
  queue_key :
      (i : ℕ) (q : RotationQueue ℕ)
      → Perm q.order (indices_from 0 c.keys)
      → 0 < length c.keys
      → (raw : ℕ) × (key : Text) × (item_at i q ≡ some raw) × (get_elem? c.keys raw ≡ some key)
  queue_key i q whole positive =
      let sized : length q.order ≡ length c.keys =
        length-perm q.order (indices_from 0 c.keys) whole ∙ length-indices 0 c.keys in
      let nonempty : 0 < length q.order = omega (arith, sized, positive) in
      let found = get_elem?-in q.order (i % length q.order) (mod-lt i nonempty) in
      let raw = found.0 in
      let held =
        contains-perm raw q.order (indices_from 0 c.keys) whole
          (get_elem?-contains q.order (i % length q.order) raw found.1) in
      let inside : raw < length c.keys = omega (arith, contains-indices 0 raw c.keys held) in
      let key = get_elem?-in c.keys raw inside in
      (raw, key.0, item_at-in i q q.order refl nonempty ∙ found.1, key.1)

module _ (u : Network) (c : PoolConfig) where
  open u use {World}

  -- A pool of at least one key, none of them empty, whose queue holds each key's index once, makes one
  -- call with one of its keys, whatever index it is asked for, and reports that call's result.
  pub pool_always_calls :
      (body : Fields) (model : Text) (key_index : Option ℕ) (q : RotationQueue ℕ) (w : World)
      → Perm q.order (indices_from 0 c.keys)
      → All (λ key. is_set key ≡ true) c.keys
      → 0 < length c.keys
      → (raw : ℕ) × (key : Text) × (get_elem? c.keys raw ≡ some key)
        × (pool_attempt u c body model key_index q w ≡ (
            let r = post u (with_model model body) (pool_options c key) w in
            (r.0, settle_key raw r.0 q, r.1)))
  pool_always_calls body model key_index q w whole filled positive =
      let (raw, key, stands, here) = queue_key c (index_or_first key_index) q whole positive in
      (
        raw,
        key,
        here,
        attempt-calls u c body model key_index q w raw key stands here
            (All-get_elem? (λ k. is_set k ≡ true) c.keys raw key here filled) positive,
      )

  -- Of two attempts in a row, at one position and at the next one, where the key at the first position
  -- fails and is demoted, the second calls, in place of the key that stood at its position, the key
  -- after it or, where there is none, the failed key again.
  pub key_failure_skips :
      (body : Fields) (model : Text) (q : RotationQueue ℕ) (w : World) (pre rest : List ℕ)
      (a b next : ℕ) (key key' : Text)
      → q.order ≡ pre ++ a ∷ b ∷ rest
      → contains a pre ≡ false
      → get_elem? c.keys a ≡ some key
      → is_set key ≡ true
      → is_key_failure (post u (with_model model body) (pool_options c key) w).0 ≡ true
      → get_elem? (rest ++ a ∷ []) 0 ≡ some next
      → get_elem? c.keys next ≡ some key'
      → is_set key' ≡ true
      → let (_, q', w') = pool_attempt u c body model (some (length pre)) q w in
        (item_at (length pre + 1) q ≡ some b)
        × ((pool_attempt u c body model (some (length pre + 1)) q' w').0
            ≡ (post u (with_model model body) (pool_options c key') w').0)
  key_failure_skips body model q w pre rest a b next key key' order fresh here filled fails after
        stands filled' =
      let some_key = some-positive c.keys a key here in
      let e : length pre ≡ length pre + 0 = omega arith in
      let first =
        ap (λ i. item_at i q) e ∙ item_at-offset q pre (a ∷ b ∷ rest) 0 order (omega arith) in
      let called =
        attempt-calls u c body model (some (length pre)) q w a key first here filled some_key in
      let moved = demote-moves q pre a (b ∷ rest) order fresh in
      let longer = length-append rest (a ∷ []) in
      let second =
        item_at-offset (demote a q) pre (b ∷ (rest ++ a ∷ [])) 1 moved (omega (arith, longer))
        ∙ after in
      let (_, _, w') = pool_attempt u c body model (some (length pre)) q w in
      (
        item_at-offset q pre (a ∷ b ∷ rest) 1 order (omega arith),
        ap (λ r. r.0)
            (attempt-calls u c body model (some (length pre + 1)) _ w' next key'
              (rw (called, fails) second) stands filled' some_key),
      )

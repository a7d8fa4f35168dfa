-- ===== src/Rotation.antt =====
-- The demote-to-back queue with a cooldown, src/providers/rotation.ts. A method of `RotationQueue<T>`
-- is a function that takes the queue last and returns it changed. `T` is any type with `===`; the
-- map of parked items is a function; `Date.now()` is the argument `now`.
pub mod Order
pub mod Parking
mod Examples
use msrouter.Prelude.{
  ℕ, ◌+◌, ◌-◌, ◌%◌, Bool, true, false, not, Option, none, some, List, [], ◌∷◌, ◌++◌, Eq, ◌==◌, ltb,
  leb, if◌then◌else◌, length, get_elem?, keep, index_of, remove_at, nat_eq,
}

pub record RotationQueue {ℓ} (T : Type ℓ) : Type ℓ where
  pub order : List T
  pub parked_until : T → Option ℕ

-- the constructor
unfoldable pub of_items {ℓ} : {T : Type ℓ} → List T → RotationQueue T
of_items items = record { order = items; parked_until = λ _. none }

-- a window that is still open
unfoldable pub window_open : ℕ → Option ℕ → Bool
window_open now none = false
window_open now (some until) = ltb now until

-- what `eligible` leaves in the map: an expired window is deleted
unfoldable pub drop_expired : ℕ → Option ℕ → Option ℕ
drop_expired now none = none
drop_expired now (some until) = if leb until now then none else some until

module _ {ℓ} {T : Type ℓ} where
  unfoldable pub size : RotationQueue T → ℕ
  size q = length q.order

  -- `at`: none for `undefined`
  unfoldable pub item_at : ℕ → RotationQueue T → Option T
  item_at logical_index q = elim q.order [
    | [] ↦ none
    | x ∷ xs ↦ get_elem? (x ∷ xs) (logical_index % length (x ∷ xs))
  ]

  unfoldable pub snapshot : RotationQueue T → List T
  snapshot q = q.order

  unfoldable pub is_parked : ℕ → T → RotationQueue T → Bool
  unfolding window_open
  is_parked now item q = window_open now (q.parked_until item)

  unfoldable pub live : ℕ → RotationQueue T → List T
  unfolding is_parked
  live now q = keep (λ x. not (is_parked now x q)) q.order

  or_all : List T → List T → List T
  or_all [] all = all
  or_all (x ∷ xs) all = x ∷ xs

module _ {ℓ} {T : Type ℓ} ⦃e : Eq T⦄ where
  unfoldable pub position : T → RotationQueue T → Option ℕ
  position item q = index_of item q.order

  unfoldable pub demote : T → RotationQueue T → RotationQueue T
  unfolding position
  demote item q = elim (position item q) [
    | none ↦ q
    | some pos ↦
        if pos == length q.order - 1
        then q
        else record q { order = remove_at pos q.order ++ item ∷ [] }
  ]

  -- `parkedUntil.set`
  unfoldable pub set_window : T → ℕ → (T → Option ℕ) → T → Option ℕ
  set_window item until m x = if item == x then some until else m x

  unfoldable pub park : ℕ → T → ℕ → RotationQueue T → RotationQueue T
  unfolding position set_window
  park now item cooldown_ms q = elim (position item q) [
    | none ↦ q
    | some _ ↦ record q { parked_until = set_window item (now + cooldown_ms) q.parked_until }
  ]

  -- only the items of the queue are visited
  unfoldable pub sweep : ℕ → RotationQueue T → RotationQueue T
  unfolding drop_expired
  sweep now q = record q {
    parked_until = λ x. elim (index_of x q.order) [
      | none ↦ q.parked_until x
      | some _ ↦ drop_expired now (q.parked_until x)
    ];
  }

  -- The list of items to try, and the queue without its expired windows.
  unfoldable pub eligible : ℕ → RotationQueue T → List T × RotationQueue T
  unfolding live or_all sweep
  eligible now q = (or_all (live now q) q.order, sweep now q)

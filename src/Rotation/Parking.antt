-- ===== src/Rotation/Parking.antt =====
-- What `park`, `eligible` and the passing of time do to the cooldown windows.
use msrouter.Prelude.{
  ℕ, ◌+◌, ◌≤◌, ◌≡◌, ◌⊎◌, refl, ap, inl, inr, true, not, ◌&&◌, some, List, [], ◌∷◌, arith, Eq, ◌==◌,
  ltb, if◌then◌else◌, contains, index_of, Option-cases, index_of-none, index_of-some, contains-keep,
}
use msrouter.Rotation.{RotationQueue, demote, park, is_parked, sweep, live, or_all, eligible}

module _ {ℓ} {T : Type ℓ} ⦃e : Eq T⦄ where
  pub park-order :
      (now : ℕ) (a : T) (ms : ℕ) (q : RotationQueue T) → (park now a ms q).order ≡ q.order
  unfolding park
  park-order now a ms q = ground arith

  -- The windows after a `park` of an item of the queue.
  parked_until-park :
      (now : ℕ) (a b : T) (ms : ℕ) (q : RotationQueue T)
      → (park now a ms q).parked_until b
        ≡ (if contains a q.order && a == b then some (now + ms) else q.parked_until b)
  unfolding park
  parked_until-park now a b ms q = elim (Option-cases (index_of a q.order)) [
    | inl gone ↦ ground (arith, index_of-none a q.order)
    | inr (i, at) ↦ ground (arith, index_of-some a q.order i)
  ]

  -- After `park` an item of the queue is parked until the cooldown has passed, counted from the call,
  -- whatever window it had; every other item is parked as it was; parking an item that the queue does
  -- not hold changes nothing.
  pub is_parked-park :
      (now later : ℕ) (a b : T) (ms : ℕ) (q : RotationQueue T)
      → is_parked later b (park now a ms q)
        ≡ (if contains a q.order && a == b then ltb later (now + ms) else is_parked later b q)
  unfolding is_parked
  is_parked-park now later a b ms q = ground (arith, parked_until-park now a b ms q)

  pub is_parked-demote :
      (now : ℕ) (a b : T) (q : RotationQueue T) → is_parked now b (demote a q) ≡ is_parked now b q
  unfolding is_parked demote
  is_parked-demote now a b q = ground arith

  is_parked-sweep :
      (now later : ℕ) (x : T) (q : RotationQueue T)
      → now ≤ later
      → is_parked later x (sweep now q) ≡ is_parked later x q
  unfolding is_parked sweep
  is_parked-sweep now later x q h = ground arith

  -- Deleting the expired windows is not observable: no item is parked or freed by it, now or later,
  -- and the order stays.
  pub eligible_sweeps :
      (now later : ℕ) (x : T) (q : RotationQueue T)
      → now ≤ later
      → (is_parked later x (eligible now q).1 ≡ is_parked later x q)
        × ((eligible now q).1.order ≡ q.order)
  unfolding eligible
  eligible_sweeps now later x q h = (is_parked-sweep now later x q h, refl)

  pub contains-live :
      (now : ℕ) (x : T) (q : RotationQueue T)
      → contains x (live now q) ≡ (contains x q.order && not (is_parked now x q))
  unfolding live
  contains-live now x q = contains-keep _ x q.order

  or_all-cases : (xs all : List T) → ((xs ≡ []) × (or_all xs all ≡ all)) ⊎ (or_all xs all ≡ xs)
  unfolding or_all
  or_all-cases [] all = inl (refl, refl)
  or_all-cases (x ∷ xs) all = inr refl

  -- Either every item of the queue, or those that are not parked, in order.
  pub eligible_cases :
      (now : ℕ) (q : RotationQueue T)
      → ((eligible now q).0 ≡ q.order) ⊎ ((eligible now q).0 ≡ live now q)
  unfolding eligible
  eligible_cases now q = elim (or_all-cases (live now q) q.order) [
    | inl (_, all) ↦ inl all
    | inr some_live ↦ inr some_live
  ]

  -- What `eligible` offers: the items that are not parked; or, when every item is parked, all.
  eligible_lem :
      (now : ℕ) (q : RotationQueue T)
      → ((x : T) → contains x (eligible now q).0 ≡ (contains x q.order && not (is_parked now x q)))
        ⊎ (((x : T) → contains x q.order ≡ true → is_parked now x q ≡ true)
            × ((eligible now q).0 ≡ q.order))
  unfolding eligible
  eligible_lem now q = elim (or_all-cases (live now q) q.order) [
    | inl (none_live, all) ↦ inr (parked none_live, all)
    | inr some_live ↦ inl (λ x. rw some_live (contains-live now x q))
  ]
    where
      parked : live now q ≡ [] → (x : T) → contains x q.order ≡ true → is_parked now x q ≡ true
      parked none_live x h = ground (arith, contains-live now x q, ap (contains x) none_live)

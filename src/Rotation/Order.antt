-- ===== src/Rotation/Order.antt =====
-- What `demote` does to the order: the item goes to the back, and the others keep their places.
use mathlib.Core.List.{perm_middle, append-nil}
use mathlib.Core.List.Perm
use msrouter.Prelude.{
  ℕ, ◌-◌, ◌≡◌, ap, inl, inr, true, ◌||◌, some, List, [], ◌∷◌, ◌++◌, Perm, arith, Eq, ◌==◌,
  if◌then◌else◌, length, contains, index_of, erase, Bool-cases, Option-cases, index_of-none,
  index_of-some, contains-append,
}
use msrouter.Rotation.{RotationQueue, demote}

module _ {ℓ} {T : Type ℓ} ⦃e : Eq T⦄ where
  perm-erase : (a : T) (xs : List T) → contains a xs ≡ true → Perm xs (a ∷ erase a xs)
  perm-erase a [] h = cc
  perm-erase a (x ∷ xs) h = elim (Bool-cases (x == a)) [
    | inl same ↦ rw (same, (e.beq_iff x a).0 same) Perm.rfl
    | inr other ↦
        rw other (Perm.trans (Perm.cons x (perm-erase a xs (ground arith))) (Perm.swap a x _))
  ]

  -- The first occurrence stands at the back.
  erase-last :
      (a : T) (xs : List T) (i : ℕ)
      → index_of a xs ≡ some i
      → i ≡ length xs - 1
      → erase a xs ++ a ∷ [] ≡ xs
  erase-last a [] i h l = cc
  erase-last a (x ∷ []) i h l = ground (arith, e.beq_iff x a)
  erase-last a (x ∷ y ∷ ys) i h l = elim (Bool-cases (x == a)) [
    | inl same ↦ absurd (ground arith)
    | inr other ↦
        rw other (ap (◌∷◌ x) (erase-last a (y ∷ ys) (i - 1) (ground arith) (ground arith)))
  ]

  -- Demoting an item of the queue takes its first occurrence out and puts it at the back; the others
  -- keep their places. Demoting any other item changes nothing.
  pub demote-order :
      (a : T) (q : RotationQueue T)
      → (demote a q).order ≡ (if contains a q.order then erase a q.order ++ a ∷ [] else q.order)
  unfolding demote
  demote-order a q = elim (Option-cases (index_of a q.order)) [
    | inl gone ↦ ground (arith, index_of-none a q.order)
    | inr (i, e) ↦ ground (arith, index_of-some a q.order i, erase-last a q.order i)
  ]

  demote-parked_until : (a : T) (q : RotationQueue T) → (demote a q).parked_until ≡ q.parked_until
  unfolding demote
  demote-parked_until a q = ground arith

  -- Demoting only reorders the queue, whether it holds the item or not.
  pub demote-perm : (a : T) (q : RotationQueue T) → Perm (demote a q).order q.order
  demote-perm a q = elim (Bool-cases (contains a q.order)) [
    | inl there ↦
        rw (demote-order a q, there)
          (Perm.trans (perm_middle (erase a q.order) [])
            (rw append-nil (Perm.symm (perm-erase a q.order there))))
    | inr gone ↦ rw (demote-order a q, gone) Perm.rfl
  ]

  contains-moved :
      (x a : T) (xs : List T)
      → contains a xs ≡ true
      → contains x (erase a xs ++ a ∷ []) ≡ contains x xs
  contains-moved x a [] h = cc
  contains-moved x a (y ∷ ys) h = elim (Bool-cases (y == a)) [
    | inl same ↦ rw (same, contains-append x ys (a ∷ []), (e.beq_iff y a).0 same) (ground arith)
    | inr other ↦ rw other (ap (λ b. y == x || b) (contains-moved x a ys (ground arith)))
  ]

  -- Demoting loses no item and adds none.
  pub contains-demote :
      (x a : T) (q : RotationQueue T) → contains x (demote a q).order ≡ contains x q.order
  contains-demote x a q = elim (Bool-cases (contains a q.order)) [
    | inl there ↦ rw (demote-order a q, there) (contains-moved x a q.order there)
    | inr gone ↦ rw (demote-order a q, gone)
  ]

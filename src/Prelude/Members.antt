-- ===== src/Prelude/Members.antt =====
-- `includes` and the length under a permutation.
use mathlib.Core.Path.{◌≡◌, refl, sym, ◌∙◌}
use mathlib.Core.Logic.{inl, inr, ∥∥₁_elim}
use mathlib.Core.Bool.{true, Bool-set}
use mathlib.Core.List.{List, [], ◌∷◌, Memᴰ, Perm, Permᴰ}
use mathlib.Core.List.Perm
use native.Mathlib.Nat.{ℕ_set}
use native.Mathlib.Omega.{arith}
use msrouter.Prelude.Tests.{Bool-cases}
use msrouter.Prelude.Lists.{Eq, ◌==◌, contains, length}

module _ {ℓ} {A : Type ℓ} ⦃e : Eq A⦄ where
  pub contains→Memᴰ : (a : A) (xs : List A) → contains a xs ≡ true → Memᴰ a xs
  contains→Memᴰ a [] h = cc
  contains→Memᴰ a (x ∷ xs) h = elim (Bool-cases (x == a)) [
    | inl same ↦ Memᴰ.head (sym ((e.beq_iff x a).0 same))
    | inr other ↦ Memᴰ.tail (contains→Memᴰ a xs (ground arith))
  ]

  pub Memᴰ→contains : (a : A) (xs : List A) → Memᴰ a xs → contains a xs ≡ true
  Memᴰ→contains a [] m = elim m [ ]
  Memᴰ→contains a (x ∷ xs) (Memᴰ.head h) = ground (arith, (e.beq_iff x a).1 (sym h))
  Memᴰ→contains a (x ∷ xs) (Memᴰ.tail m) = ground (arith, Memᴰ→contains a xs m)

  pub contains-perm :
      (a : A) (xs ys : List A) → Perm xs ys → contains a xs ≡ true → contains a ys ≡ true
  contains-perm a xs ys p h =
      ∥∥₁_elim ((Perm.mem_iff p).0 ∣ contains→Memᴰ a xs h ∣₁) (Bool-set _ _)
        (λ m. Memᴰ→contains a ys m)

  length-permᴰ : (xs ys : List A) → Permᴰ xs ys → length xs ≡ length ys
  length-permᴰ xs ys Permᴰ.nil = refl
  length-permᴰ (x ∷ xs) (y ∷ ys) (Permᴰ.cons h p) = omega (arith, length-permᴰ xs ys p)
  length-permᴰ _ _ (Permᴰ.swap g h) = refl
  length-permᴰ xs ys (Permᴰ.trans p q) = length-permᴰ xs _ p ∙ length-permᴰ _ ys q

  pub length-perm : (xs ys : List A) → Perm xs ys → length xs ≡ length ys
  length-perm xs ys p = ∥∥₁_elim p (ℕ_set _ _) (length-permᴰ xs ys)

-- ===== src/Prelude/Lists.antt =====
-- Lists measured by native numbers, and the interface of decidable equality that the maps, sets
-- and `includes` tests of the program stand on.
use Prim.Native.Nat.{ℕ, zero, suc, ◌+◌, ◌≤◌}
use mathlib.Core.Path.{◌≡◌, refl}
use mathlib.Core.Logic.{◌↔◌, inl, inr}
use mathlib.Core.Bool.{Bool, true, false, ◌&&◌, ◌||◌}
use mathlib.Core.List.{List, [], ◌∷◌, ◌++◌}
use mathlib.Core.Option.{Option, none, some}
use native.Mathlib.Omega.{arith}
use msrouter.Prelude.Tests.{if◌then◌else◌, nat_beq, nat_beq_iff, Bool-cases}

-- `===` on the keys of a map, the members of a set or the items of an array.
pub record Eq {ℓ} (A : Type ℓ) : Type ℓ where
  pub beq : A → A → Bool
  -- the test says yes exactly on equal values
  pub beq_iff : (left right : A) → (beq left right ≡ true) ↔ (left ≡ right)

instance abbrev pub nat_eq : Eq ℕ
nat_eq = record { beq = nat_beq; beq_iff = nat_beq_iff }

module _ {ℓ} {A : Type ℓ} ⦃same : Eq A⦄ where
  infix 50 ◌==◌
  abbrev pub ◌==◌ : A → A → Bool
  left == right = same.beq left right

module _ {ℓ} {A : Type ℓ} where
  abbrev pub length : List A → ℕ
  length [] = 0
  length (x ∷ xs) = suc (length xs)

  abbrev pub get_elem? : List A → ℕ → Option A
  get_elem? [] i = none
  get_elem? (x ∷ xs) zero = some x
  get_elem? (x ∷ xs) (suc i) = get_elem? xs i

  abbrev pub drop : ℕ → List A → List A
  drop zero xs = xs
  drop (suc n) [] = []
  drop (suc n) (x ∷ xs) = drop n xs

  -- `Array.prototype.filter`
  abbrev pub keep : (A → Bool) → List A → List A
  keep p [] = []
  keep p (x ∷ xs) = let rest = keep p xs in if p x then x ∷ rest else rest

  abbrev pub some_of : (A → Bool) → List A → Bool
  some_of p [] = false
  some_of p (x ∷ xs) = p x || some_of p xs

  abbrev pub every : (A → Bool) → List A → Bool
  every p [] = true
  every p (x ∷ xs) = p x && every p xs

  -- the blocks that are pushed one after the other
  abbrev pub concat : List (List A) → List A
  concat [] = []
  concat (xs ∷ xss) = xs ++ concat xss

  -- `splice(i, 1)`
  abbrev pub remove_at : ℕ → List A → List A
  remove_at i [] = []
  remove_at zero (x ∷ xs) = xs
  remove_at (suc i) (x ∷ xs) = x ∷ remove_at i xs

  pub length-append : (xs ys : List A) → length (xs ++ ys) ≡ length xs + length ys
  length-append [] ys = omega arith
  length-append (x ∷ xs) ys = omega (arith, length-append xs ys)

  pub length-keep-le : (p : A → Bool) (xs : List A) → length (keep p xs) ≤ length xs
  length-keep-le p [] = omega arith
  length-keep-le p (x ∷ xs) = ground (arith, length-keep-le p xs)

abbrev pub All {ℓ κ} : {A : Type ℓ} → (A → Type κ) → List A → Type κ
All P [] = Unit
All P (x ∷ xs) = P x × All P xs

module _ {ℓ κ} {A : Type ℓ} (P : A → Type κ) where
  pub All-append : (xs ys : List A) → All P xs → All P ys → All P (xs ++ ys)
  All-append [] ys hx hy = hy
  All-append (x ∷ xs) ys hx hy = (hx.0, All-append xs ys hx.1 hy)

  pub All-concat : (xss : List (List A)) → All (All P) xss → All P (concat xss)
  All-concat [] h = tt
  All-concat (xs ∷ xss) h = All-append xs (concat xss) h.0 (All-concat xss h.1)

module _ {ℓ} {A : Type ℓ} ⦃e : Eq A⦄ where
  -- `Array.prototype.includes`, `Set.prototype.has`
  abbrev pub contains : A → List A → Bool
  contains a [] = false
  contains a (x ∷ xs) = x == a || contains a xs

  -- `Array.prototype.indexOf`, `none` for -1
  abbrev pub index_of : A → List A → Option ℕ
  index_of a [] = none
  index_of a (x ∷ xs) =
      let later = index_of a xs in
      if x == a then some 0 else elim later [ none ↦ none | some i ↦ some (suc i) ]

  -- without the first occurrence
  abbrev pub erase : A → List A → List A
  erase a [] = []
  erase a (x ∷ xs) = let rest = erase a xs in if x == a then xs else x ∷ rest

  pub beq_refl : (a : A) → (a == a) ≡ true
  beq_refl a = (e.beq_iff a a).1 refl

  pub beq-false : (a b : A) → (a ≡ b → ⊥) → (a == b) ≡ false
  beq-false a b h = elim (Bool-cases (a == b)) [
    | inl same ↦ absurd (h ((e.beq_iff a b).0 same))
    | inr other ↦ other
  ]

  pub contains-append :
      (a : A) (xs ys : List A) → contains a (xs ++ ys) ≡ (contains a xs || contains a ys)
  contains-append a [] ys = refl
  contains-append a (x ∷ xs) ys = ground (arith, contains-append a xs ys)

  pub contains-concat :
      (a : A) (xss : List (List A)) → contains a (concat xss) ≡ some_of (contains a) xss
  contains-concat a [] = refl
  contains-concat a (xs ∷ xss) =
      ground (arith, contains-append a xs (concat xss), contains-concat a xss)

  pub contains-keep :
      (p : A → Bool) (a : A) (xs : List A) → contains a (keep p xs) ≡ (contains a xs && p a)
  contains-keep p a [] = refl
  contains-keep p a (x ∷ xs) = ground (arith, contains-keep p a xs, e.beq_iff x a)

  -- `Set.prototype.add`, of the elements in the order in which they were added
  abbrev pub add : A → List A → List A
  add a xs = if contains a xs then xs else xs ++ a ∷ []

  pub contains-add : (a b : A) (xs : List A) → contains a (add b xs) ≡ (contains a xs || b == a)
  contains-add a b xs = ground (arith, contains-append a xs (b ∷ []), e.beq_iff b a)

  pub contains→All {κ} :
      (P : A → Type κ) (xs : List A) → ((a : A) → contains a xs ≡ true → P a) → All P xs
  contains→All P [] h = tt
  contains→All P (x ∷ xs) h =
      (h x (ground (arith, beq_refl x)), contains→All P xs (λ a c. h a (ground arith)))

  pub index_of-none : (a : A) (xs : List A) → index_of a xs ≡ none → contains a xs ≡ false
  index_of-none a [] h = refl
  index_of-none a (x ∷ xs) h = ground (arith, index_of-none a xs)

  pub index_of-some :
      (a : A) (xs : List A) (i : ℕ)
      → index_of a xs ≡ some i
      → (contains a xs ≡ true) × (remove_at i xs ≡ erase a xs)
  index_of-some a [] i h = (cc, refl)
  index_of-some a (x ∷ xs) zero h = ground arith
  index_of-some a (x ∷ xs) (suc i) h = ground (arith, index_of-some a xs i)

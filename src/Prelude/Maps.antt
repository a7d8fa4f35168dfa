-- ===== src/Prelude/Maps.antt =====
-- `Map` of the source language: entries in the order of their first insertion.
use mathlib.Core.Path.{◌≡◌, refl}
use mathlib.Core.Bool.{Bool, true, false, not}
use mathlib.Core.Option.{Option, none, some}
use mathlib.Core.List.{List, [], ◌∷◌}
use Prim.Native.Nat.{suc}
use native.Mathlib.Omega.{arith}
use msrouter.Prelude.Tests.{if◌then◌else◌}
use msrouter.Prelude.Lists.{Eq, ◌==◌, length, keep}

abbrev pub Map {ℓ κ} : Type ℓ → Type κ → Type (ℓ ⊔ κ)
Map K V = List (K × V)

module _ {ℓ κ} {K : Type ℓ} {V : Type κ} ⦃e : Eq K⦄ where
  abbrev pub get : K → Map K V → Option V
  get k [] = none
  get k ((j, v) ∷ m) = let later = get k m in if j == k then some v else later

  -- an old key keeps its place
  abbrev pub set : K → V → Map K V → Map K V
  set k v [] = (k, v) ∷ []
  set k v ((j, w) ∷ m) = let later = set k v m in if j == k then (j, v) ∷ m else (j, w) ∷ later

  abbrev pub delete : K → Map K V → Map K V
  delete k m = keep (λ x. not (x.0 == k)) m

  abbrev pub has : K → Map K V → Bool
  has k [] = false
  has k ((j, v) ∷ m) = let later = has k m in if j == k then true else later

  pub get-set :
      (i k : K) (v : V) (m : Map K V) → get i (set k v m) ≡ (if k == i then some v else get i m)
  get-set i k v [] = refl
  get-set i k v ((j, w) ∷ m) =
      ground (arith, get-set i k v m, e.beq_iff j k, e.beq_iff k i, e.beq_iff j i)

  pub length-set :
      (k : K) (v : V) (m : Map K V)
      → length (set k v m) ≡ (if has k m then length m else suc (length m))
  length-set k v [] = refl
  length-set k v ((j, w) ∷ m) = ground (arith, length-set k v m)

  pub get-delete : (i k : K) (m : Map K V) → get i (delete k m) ≡ (if k == i then none else get i m)
  get-delete i k [] = ground arith
  get-delete i k ((j, w) ∷ m) =
      ground (arith, get-delete i k m, e.beq_iff j k, e.beq_iff k i, e.beq_iff j i)

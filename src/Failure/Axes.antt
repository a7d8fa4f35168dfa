-- ===== src/Failure/Axes.antt =====
-- What a sweep over an axis does to the queue: src/providers/failure-axes.ts.
use mathlib.Core.List.{append_assoc, append-nil}
use mathlib.Core.List.Perm
use msrouter.Prelude.{
  ℕ, ◌+◌, ◌≡◌, refl, ap, ◌∙◌, inl, inr, Bool, true, false, not, ◌&&◌, List, [], ◌∷◌, ◌++◌, Perm,
  arith, ◌==◌, nat_eq, nat_beq_iff, ltb, if◌then◌else◌, keep, contains, contains-append, erase, All,
  All-append, Bool-cases, beq_refl,
}
use msrouter.Rotation.{RotationQueue, is_parked, demote}
use msrouter.Rotation.Order.{demote-order}
use msrouter.Rotation.Parking.{park-order}
use msrouter.Failure.{Action, demote_only, demote_and_park, for_each_if, act}

abbrev pub Op : Type 0
Op = ℕ → RotationQueue ℕ → RotationQueue ℕ

-- The order with the members of an axis moved behind the others, each part as it was.
abbrev pub moved_back : (ℕ → Bool) → List ℕ → List ℕ
moved_back test xs = keep (λ e. not (test e)) xs ++ keep test xs

erase-past :
    (y : ℕ) (front rest : List ℕ)
    → contains y front ≡ false
    → erase y (front ++ y ∷ rest) ≡ front ++ rest
erase-past y [] rest h = rw (beq_refl y)
erase-past y (x ∷ front) rest h = ground (arith, erase-past y front rest)

contains-middle : (y : ℕ) (front rest : List ℕ) → contains y (front ++ y ∷ rest) ≡ true
contains-middle y front rest = rw (contains-append y front (y ∷ rest)) (ground (arith, beq_refl y))

-- Members of the axis are not among entries outside it.
not_member :
    (test : ℕ → Bool) (y : ℕ) (front : List ℕ)
    → All (λ e. test e ≡ false) front
    → test y ≡ true
    → contains y front ≡ false
not_member test y [] h t = refl
not_member test y (x ∷ front) h t = elim (Bool-cases (x == y)) [
  | inl same ↦ absurd (cc (h.0, ap test ((nat_beq_iff x y).0 same)))
  | inr other ↦ rw other (not_member test y front h.1 t)
]

pub act-order :
    (now : ℕ) (a : Action) (e : ℕ) (q : RotationQueue ℕ)
    → (act now a e q).order ≡ (demote e q).order
unfolding act
act-order now demote_only e q = refl
act-order now (demote_and_park ms) e q = park-order now e ms (demote e q)

module _ (test : ℕ → Bool) (f : Op) (y : ℕ) (es : List ℕ) (q : RotationQueue ℕ) where
  for_each_if-hit : test y ≡ true → for_each_if test f (y ∷ es) q ≡ for_each_if test f es (f y q)
  unfolding for_each_if
  for_each_if-hit h = ap (λ b. for_each_if test f es (if b then f y q else q)) h

  for_each_if-miss : test y ≡ false → for_each_if test f (y ∷ es) q ≡ for_each_if test f es q
  unfolding for_each_if
  for_each_if-miss h = ap (λ b. for_each_if test f es (if b then f y q else q)) h

module _ (test : ℕ → Bool) (f : Op)
    (moves : (e : ℕ) (q : RotationQueue ℕ) → (f e q).order ≡ (demote e q).order) where
  demote-middle :
      (y : ℕ) (front rest : List ℕ) (q : RotationQueue ℕ)
      → contains y front ≡ false
      → q.order ≡ front ++ y ∷ rest
      → (f y q).order ≡ (front ++ rest) ++ y ∷ []
  demote-middle y front rest q h o =
      moves y q ∙ demote-order y q ∙ rw (o, contains-middle y front rest, erase-past y front rest h)

  -- `front` has been passed over, `rest` is still to be visited, `back` has been moved.
  for_each_if-order_from :
      (front rest back : List ℕ) (q : RotationQueue ℕ)
      → All (λ e. test e ≡ false) front
      → q.order ≡ front ++ (rest ++ back)
      → (for_each_if test f rest q).order
        ≡ (front ++ keep (λ e. not (test e)) rest) ++ (back ++ keep test rest)
  unfolding for_each_if
  for_each_if-order_from front [] back q h o = o ∙ simp append-nil
  for_each_if-order_from front (y ∷ rest) back q h o = elim (Bool-cases (test y)) [
    | inl member ↦
        ap (λ r. r.order) (for_each_if-hit test f y rest q member)
        ∙ for_each_if-order_from front rest (back ++ y ∷ []) (f y q) h (
            demote-middle y front (rest ++ back) q (not_member test y front h member) o
            ∙ simp append_assoc)
        ∙ rw member (simp append_assoc)
    | inr other ↦
        ap (λ r. r.order) (for_each_if-miss test f y rest q other)
        ∙ for_each_if-order_from (front ++ y ∷ []) rest back q
            (All-append (λ e. test e ≡ false) front (y ∷ []) h (other, tt)) (o ∙ simp append_assoc)
        ∙ rw other (simp append_assoc)
  ]

  pub for_each_if-order :
      (q : RotationQueue ℕ) → (for_each_if test f q.order q).order ≡ moved_back test q.order
  for_each_if-order q = for_each_if-order_from [] q.order [] q tt (simp append-nil)

-- A sweep that keeps the order up to a permutation at each step does so as a whole.
pub for_each_if-perm :
    (test : ℕ → Bool) (f : Op)
    → ((e : ℕ) (q : RotationQueue ℕ) → Perm (f e q).order q.order)
    → (es : List ℕ) (q : RotationQueue ℕ) → Perm (for_each_if test f es q).order q.order
for_each_if-perm test f h [] q = unfold for_each_if in Perm.rfl
for_each_if-perm test f h (e ∷ es) q = elim (Bool-cases (test e)) [
  | inl member ↦
      rw (for_each_if-hit test f e es q member)
        (Perm.trans (for_each_if-perm test f h es (f e q)) (h e q))
  | inr other ↦ rw (for_each_if-miss test f e es q other) (for_each_if-perm test f h es q)
]

-- A sweep that parks the members of the axis, once each, parks nothing else. The order may change on
-- the way, as long as what the queue contains stays.
module _ (now later ms : ℕ) (test : ℕ → Bool) (f : Op)
    (holds : (x e : ℕ) (q : RotationQueue ℕ) → contains x (f e q).order ≡ contains x q.order)
    (parks : (e b : ℕ) (q : RotationQueue ℕ)
      → contains e q.order ≡ true
      → is_parked later b (f e q)
        ≡ (if e == b then ltb later (now + ms) else is_parked later b q)) where
  pub for_each_if-is_parked :
      (es : List ℕ) (q : RotationQueue ℕ) (b : ℕ)
      → ((x : ℕ) → contains x es ≡ true → contains x q.order ≡ true)
      → is_parked later b (for_each_if test f es q)
        ≡ (if contains b es && test b then ltb later (now + ms) else is_parked later b q)
  for_each_if-is_parked [] q b h = unfold for_each_if in refl
  for_each_if-is_parked (e ∷ es) q b h = elim (Bool-cases (test e)) [
    | inl member ↦
        ap (is_parked later b) (for_each_if-hit test f e es q member)
        ∙ for_each_if-is_parked es (f e q) b (λ x c. holds x e q ∙ h x (ground arith))
        ∙ ground
            (arith, parks e b q (h e (ground (arith, beq_refl e))), nat_beq_iff e b, beq_refl e)
    | inr other ↦
        ap (is_parked later b) (for_each_if-miss test f e es q other)
        ∙ for_each_if-is_parked es q b (λ x c. h x (ground arith))
        ∙ ground (arith, nat_beq_iff e b)
  ]

-- ===== src/Rotation/Examples.antt =====
-- Tests of the rotation queue, src/providers/rotation.ts.
use msrouter.Prelude.{ℕ, ◌≡◌, refl, none, some, [], ◌∷◌, ◌==◌, nat_eq, if◌then◌else◌}
use msrouter.Rotation.{RotationQueue, demote, is_parked, eligible}

abbrev three : RotationQueue ℕ
three = record { order = 10 ∷ 20 ∷ 30 ∷ []; parked_until = λ _. none }

-- 20 is set aside until 150
abbrev held : RotationQueue ℕ
held = record { order = 10 ∷ 20 ∷ 30 ∷ []; parked_until = λ x. if x == 20 then some 150 else none }

-- 20 is behind the others
demote_20 : (demote 20 three).order ≡ 10 ∷ 30 ∷ 20 ∷ []
unfolding demote
demote_20 = refl

-- 20 is left out while its window is open
eligible_100 : (eligible 100 held).0 ≡ 10 ∷ 30 ∷ []
unfolding eligible is_parked
eligible_100 = refl

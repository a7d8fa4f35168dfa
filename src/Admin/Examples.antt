-- ===== src/Admin/Examples.antt =====
-- Tests of the login limiter, src/admin/rateLimit.ts: two attempts in a window of 100 ms.
use msrouter.Prelude.{
  ℕ, ◌≡◌, refl, true, false, ◌||◌, List, [], ◌∷◌, ◌==◌, nat_eq, text_eq, ltb, Text, text,
}
use msrouter.Admin.RateLimit.{allow, attempts, count_key, window_of, allow_after_attempts}

abbrev mine : Text
mine = text "10.0.0.1"

abbrev past : List (Text × ℕ)
past = (mine, 210) ∷ (text "10.0.0.2", 220) ∷ (mine, 230) ∷ []

allow_after_attempts_example :
    (allow 2 100 mine 240 (attempts 2 100 past [])).0
    ≡ (count_key 2 100 mine past == 0 || ltb (count_key 2 100 mine past) 2)
unfolding window_of
allow_after_attempts_example =
    allow_after_attempts 2 100 mine 200 240 past [] tt refl (refl, (refl, (refl, tt))) refl

-- The third attempt is refused, and the next window allows it again.
third_refused : (allow 2 100 mine 240 (attempts 2 100 past [])).0 ≡ false
unfolding allow attempts
third_refused = refl

next_allowed : (allow 2 100 mine 301 (attempts 2 100 past [])).0 ≡ true
unfolding allow attempts
next_allowed = refl

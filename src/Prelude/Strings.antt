-- ===== src/Prelude/Strings.antt =====
-- Texts as lists of code units, with the string methods that the program calls.
use Prim.Native.Nat.{ℕ, zero, suc, ◌+◌, ◌-◌}
use Prim.Native.Char.{code}
use Prim.Native.String.{String}
use mathlib.Core.Path.{◌≡◌, refl, ap₂}
use mathlib.Core.Logic.{◌↔◌}
use mathlib.Core.Bool.{Bool, true, false, ◌&&◌, ◌||◌}
use mathlib.Core.List.{List, [], ◌∷◌, ◌++◌, map}
use native.Mathlib.Omega.{arith}
use msrouter.Prelude.Tests.{leb, nat_beq, if◌then◌else◌}
use msrouter.Prelude.Lists.{Eq, length, drop, nat_eq}

abbrev pub Text : Type 0
Text = List ℕ

-- The code units of a literal, which is ASCII throughout.
abbrev pub text : String → Text
text String.[] = []
text (String.◌∷◌ c s) = code c ∷ text s

abbrev pub text_beq : Text → Text → Bool
text_beq [] [] = true
text_beq [] (y ∷ ys) = false
text_beq (x ∷ xs) [] = false
text_beq (x ∷ xs) (y ∷ ys) = nat_beq x y && text_beq xs ys

pub text_beq_sound : (s t : Text) → text_beq s t ≡ true → s ≡ t
text_beq_sound [] [] h = refl
text_beq_sound [] (y ∷ ys) h = cc
text_beq_sound (x ∷ xs) [] h = cc
text_beq_sound (x ∷ xs) (y ∷ ys) h = ground (arith, text_beq_sound xs ys)

pub text_beq_refl : (s : Text) → text_beq s s ≡ true
text_beq_refl [] = refl
text_beq_refl (x ∷ xs) = ground (arith, text_beq_refl xs)

pub text_beq_iff : (s t : Text) → (text_beq s t ≡ true) ↔ (s ≡ t)
text_beq_iff s t = (text_beq_sound s t, λ e. rw e (text_beq_refl t))

instance abbrev pub text_eq : Eq Text
text_eq = record { beq = text_beq; beq_iff = text_beq_iff }

-- `s.startsWith(prefix)`, the prefix first
abbrev pub starts_with : Text → Text → Bool
starts_with [] s = true
starts_with (p ∷ ps) [] = false
starts_with (p ∷ ps) (c ∷ s) = nat_beq p c && starts_with ps s

-- `!!s`: a non-empty text
abbrev pub is_set : Text → Bool
is_set [] = false
is_set (c ∷ s) = true

-- `toLowerCase`, on ASCII
unfoldable pub lower_unit : ℕ → ℕ
lower_unit c = if leb b'A' c && leb c b'Z' then c + 32 else c

abbrev pub to_lower : Text → Text
to_lower = map lower_unit

-- `trim`, of the ASCII blanks
abbrev pub is_blank : ℕ → Bool
is_blank c = nat_beq c 32 || (leb 9 c && leb c 13)

abbrev pub trim_start : Text → Text
trim_start [] = []
trim_start (c ∷ s) = let rest = trim_start s in if is_blank c then rest else c ∷ s

abbrev pub before_end : ℕ → Text → Text
before_end c [] = if is_blank c then [] else c ∷ []
before_end c (d ∷ s) = c ∷ d ∷ s

abbrev pub trim_end : Text → Text
trim_end [] = []
trim_end (c ∷ s) = before_end c (trim_end s)

abbrev pub trim : Text → Text
trim s = trim_end (trim_start s)

-- `s.includes(sep)`, for a `sep` that is not empty, the part first
abbrev pub includes : Text → Text → Bool
includes sep [] = false
includes sep (c ∷ s) = let later = includes sep s in if starts_with sep (c ∷ s) then true else later

abbrev pub cons_first : ℕ → List Text → List Text
cons_first c [] = (c ∷ []) ∷ []
cons_first c (p ∷ ps) = (c ∷ p) ∷ ps

-- `s.split(sep)`, for a `sep` that is not empty; the number says how much of it is still to be skipped
abbrev pub split_from : Text → ℕ → Text → List Text
split_from sep n [] = [] ∷ []
split_from sep (suc n) (c ∷ s) = split_from sep n s
split_from sep zero (c ∷ s) = elim (starts_with sep (c ∷ s)) [
  | true ↦ [] ∷ split_from sep (length sep - 1) s
  | false ↦ cons_first c (split_from sep zero s)
]

abbrev pub split : Text → Text → List Text
split sep s = split_from sep zero s

-- `s.slice(0, n)`
abbrev pub take {ℓ} : {A : Type ℓ} → ℕ → List A → List A
take zero s = []
take (suc n) [] = []
take (suc n) (c ∷ s) = c ∷ take n s

pub drop-append : (p s : Text) → drop (length p) (p ++ s) ≡ s
drop-append [] s = refl
drop-append (c ∷ p) s = drop-append p s

pub lower_unit_idem : (c : ℕ) → lower_unit (lower_unit c) ≡ lower_unit c
unfolding lower_unit
lower_unit_idem c = ground arith

pub to_lower_idem : (s : Text) → to_lower (to_lower s) ≡ to_lower s
to_lower_idem [] = refl
to_lower_idem (c ∷ s) = ap₂ ◌∷◌ (lower_unit_idem c) (to_lower_idem s)

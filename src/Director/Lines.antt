-- ===== src/Director/Lines.antt =====
-- The lines of the overrides file, one by one: src/director/apply.ts.
use mathlib.Core.List.{append_assoc}
use msrouter.Prelude.{
  contains-append, map, ℕ, zero, suc, ◌≡◌, refl, ap, ◌∙◌, inl, inr, Bool, true, false, not, ◌&&◌,
  ◌||◌, none, some, List, [], ◌∷◌, ◌++◌, arith, ◌==◌, nat_eq, text_eq, leb, if◌then◌else◌, length,
  drop, take, split, starts_with, index_of, contains, every, trim, trim_start, trim_end, is_blank,
  cons_first, split_from, Text, Map, set, All, Bool-cases, &&-true,
}
use msrouter.Director.Patches.{is_key, is_upper}
use msrouter.Director.Overrides.{
  entry_if, key_at, entry_in, set_entry, read_lines, line_of, joined, merged,
}

abbrev is_key_unit : ℕ → Bool
is_key_unit d = is_upper d || (leb b'0' d && leb d b'9')

key_unit-apart :
    (c : ℕ)
    → is_key_unit c ≡ true
    → (is_blank c ≡ false) × ((c == 61) ≡ false) × ((35 == c) ≡ false) × ((c == 10) ≡ false)
key_unit-apart c h = (ground arith, ground arith, ground arith, ground arith)

every-cons :
    (c : ℕ) (k : Text)
    → every is_key_unit (c ∷ k) ≡ true
    → (is_key_unit c ≡ true) × (every is_key_unit k ≡ true)
every-cons c k h = &&-true (is_key_unit c) (every is_key_unit k) h

trim_end-key : (k v : Text) → trim_end v ≡ v → trim_end (k ++ (61 ∷ v)) ≡ k ++ (61 ∷ v)
trim_end-key [] [] h = refl
trim_end-key [] (d ∷ v) h = rw h refl
trim_end-key (c ∷ []) v h = rw (trim_end-key [] v h) refl
trim_end-key (c ∷ d ∷ k) v h = rw (trim_end-key (d ∷ k) v h) refl

trim_end-units : (k : Text) → every is_key_unit k ≡ true → trim_end k ≡ k
trim_end-units [] h = refl
trim_end-units (c ∷ []) h = let plain = (key_unit-apart c (every-cons c [] h).0).0 in rw plain refl
trim_end-units (c ∷ d ∷ k) h = rw (trim_end-units (d ∷ k) (every-cons c (d ∷ k) h).1) refl

index_of-key :
    (k v : Text) → every is_key_unit k ≡ true → index_of 61 (k ++ (61 ∷ v)) ≡ some (length k)
index_of-key [] v h = refl
index_of-key (c ∷ k) v h =
    let apart = (key_unit-apart c (every-cons c k h).0).1 in
    rw (apart, index_of-key k v (every-cons c k h).1) refl

take-key : (k s : Text) → take (length k) (k ++ s) ≡ k
take-key [] [] = refl
take-key [] (c ∷ s) = refl
take-key (c ∷ k) s = ap (◌∷◌ c) (take-key k s)

drop-key : (k v : Text) → drop (suc (length k)) (k ++ (61 ∷ v)) ≡ v
drop-key [] v = refl
drop-key (c ∷ k) v = drop-key k v

is_key-units : (k : Text) → is_key k ≡ true → every is_key_unit k ≡ true
is_key-units [] h = refl
is_key-units (c ∷ k) h = ground arith

-- A value without a line break, and with no blank at either end.
pub record IsValue (v : Text) : Type 0 where
  pub starts : trim_start v ≡ v
  pub ends : trim_end v ≡ v
  pub one_line : contains 10 v ≡ false

entry_in-line :
    (k v : Text) → is_key k ≡ true → IsValue v → entry_in (trim (line_of (k, v))) ≡ some (k, v)
entry_in-line [] v h g = cc
entry_in-line (c ∷ k) v h g =
    let units = is_key-units (c ∷ k) h in
    let apart = key_unit-apart c (every-cons c k units).0 in
    let begins : trim_start (line_of (c ∷ k, v)) ≡ line_of (c ∷ k, v) = rw apart.0 refl in
    let trimmed : trim (line_of (c ∷ k, v)) ≡ line_of (c ∷ k, v) =
      ap trim_end begins ∙ trim_end-key (c ∷ k) v g.ends in
    let key_start : trim_start (c ∷ k) ≡ c ∷ k = rw apart.0 refl in
    let key : trim (c ∷ k) ≡ c ∷ k = ap trim_end key_start ∙ trim_end-units (c ∷ k) units in
    let value : trim v ≡ v = ap trim_end g.starts ∙ g.ends in
    let at = index_of-key (c ∷ k) v units in
    let before = take-key (c ∷ k) (61 ∷ v) in
    let after = drop-key (c ∷ k) v in
    let line = line_of (c ∷ k, v) in
    let both =
      ap (λ t. entry_if (trim t) (trim (drop (suc (suc (length k))) line))) before
      ∙ ap (λ t. entry_if (trim (c ∷ k)) (trim t)) after
      ∙ ap (λ t. entry_if t (trim v)) key
      ∙ ap (λ t. entry_if (c ∷ k) t) value in
    ap entry_in trimmed
    ∙ ap (λ hash. if not true || (hash && true) then none else key_at (index_of 61 line) line)
        apart.2
    ∙ ap (λ i. key_at i line) at
    ∙ both

split_from-next :
    (c : ℕ) (s : Text)
    → (10 == c) ≡ false
    → split_from (10 ∷ []) zero (c ∷ s) ≡ cons_first c (split_from (10 ∷ []) zero s)
split_from-next c s other = elim (Bool-cases (starts_with (10 ∷ []) (c ∷ s))) [
  | inl now ↦ let same = (&&-true (10 == c) true now).0 in cc
  | inr later ↦ rw (split_from, later) refl
]

pub split-line :
    (l s : Text) → contains 10 l ≡ false → split (10 ∷ []) (l ++ (10 ∷ s)) ≡ l ∷ split (10 ∷ []) s
split-line [] s h = refl
split-line (c ∷ l) s h =
    let other : (10 == c) ≡ false = ground (arith, h) in
    let rest : contains 10 l ≡ false = ground (arith, h) in
    split_from-next c (l ++ (10 ∷ s)) other ∙ ap (cons_first c) (split-line l s rest)

contains-append_false :
    (a b : Text) → contains 10 a ≡ false → contains 10 b ≡ false → contains 10 (a ++ b) ≡ false
contains-append_false a b h g = contains-append 10 a b ∙ rw (h, g) refl

no_break-key : (k : Text) → every is_key_unit k ≡ true → contains 10 k ≡ false
no_break-key [] h = refl
no_break-key (c ∷ k) h =
    rw ((key_unit-apart c (every-cons c k h).0).3, no_break-key k (every-cons c k h).1) refl

no_break-line : (k v : Text) → is_key k ≡ true → IsValue v → contains 10 (line_of (k, v)) ≡ false
no_break-line k v h g =
    contains-append_false k (61 ∷ v) (no_break-key k (is_key-units k h)) g.one_line

-- Entries of which each has a key that is the name of a variable and such a value.
abbrev pub Writable : Map Text Text → Type 0
Writable = All (λ x. (is_key x.0 ≡ true) × IsValue x.1)

-- No key stands twice.
abbrev pub keys : Map Text Text → List Text
keys m = map (λ x. x.0) m

unfoldable pub lines : Map Text Text → List Text
lines [] = [] ∷ []
lines (x ∷ m) = line_of x ∷ lines m

pub split-joined :
    (x : Text × Text) (m : Map Text Text)
    → Writable (x ∷ m)
    → split (10 ∷ []) (joined (x ∷ m) ++ (10 ∷ [])) ≡ lines (x ∷ m)
unfolding lines
split-joined x [] h = split-line (line_of x) [] (no_break-line x.0 x.1 h.0.0 h.0.1)
split-joined x (y ∷ m) h =
    ap (split (10 ∷ [])) (append_assoc (line_of x) (10 ∷ joined (y ∷ m)) (10 ∷ []))
    ∙ split-line (line_of x) (joined (y ∷ m) ++ (10 ∷ [])) (no_break-line x.0 x.1 h.0.0 h.0.1)
    ∙ ap (◌∷◌ (line_of x)) (split-joined y m h.1)

-- reading the lines of some entries merges them
pub read_lines-lines : (n m : Map Text Text) → Writable n → read_lines (lines n) m ≡ merged m n
unfolding read_lines lines
read_lines-lines [] m h = refl
read_lines-lines ((k, v) ∷ n) m h =
    ap (λ x. read_lines (lines n) (set_entry x m)) (entry_in-line k v h.0.0 h.0.1)
    ∙ read_lines-lines n (set k v m) h.1

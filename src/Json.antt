-- ===== src/Json.antt =====
-- The values that `JSON.parse` returns, which the code reads without types, and the property access,
-- truthiness and `typeof` tests of the source language on them. A number is the text that it prints
-- as; `undefined` is `none`.
use msrouter.Prelude.{
  ◌≡◌, refl, beq-false, arith, inl, inr, Bool-cases, text_beq_iff, sym, ◌∙◌, ℕ, zero, suc, Bool,
  true, false, not, Option, none, some, ◌==◌, text_eq, if◌then◌else◌, Text, text, is_set,
}
use mathlib.Core.Bool.{true≢false}

mutual
  pub data Json : Type 0 where
    null : Json
    bool : Bool → Json
    number : Text → Json
    string : Text → Json
    array : Items → Json
    object : Fields → Json

  pub data Items : Type 0 where
    nil : Items
    cons : Json → Items → Items

  pub data Fields : Type 0 where
    end : Fields
    field : Text → Json → Fields → Fields

-- `!!v`
abbrev pub truthy : Json → Bool
truthy null = false
truthy (bool b) = b
truthy (number t) = not (t == text "0")
truthy (string s) = is_set s
truthy (array xs) = true
truthy (object fs) = true

abbrev pub truthy? : Option Json → Bool
truthy? none = false
truthy? (some v) = truthy v

-- `v && typeof v === 'object'`, an array included
abbrev pub is_object : Json → Bool
is_object (array xs) = true
is_object (object fs) = true
is_object _ = false

abbrev pub is_object? : Option Json → Bool
is_object? none = false
is_object? (some v) = is_object v

abbrev pub get_field : Text → Fields → Option Json
get_field k end = none
get_field k (field j v fs) = let later = get_field k fs in if j == k then some v else later

-- `v.k`, of a value that is not null
abbrev pub prop : Text → Json → Option Json
prop k (object fs) = get_field k fs
prop k _ = none

abbrev pub prop? : Text → Option Json → Option Json
prop? k none = none
prop? k (some v) = prop k v

-- `{ ...fs, k: v }`
abbrev pub set_field : Text → Json → Fields → Fields
set_field k v end = field k v end
set_field k v (field j w fs) =
    let later = set_field k v fs in if j == k then field j v fs else field j w later

-- the elements of an array, none for any other value
abbrev pub items? : Option Json → Option Items
items? (some (array xs)) = some xs
items? _ = none

-- the text of a string, none for any other value
abbrev pub string? : Option Json → Option Text
string? (some (string s)) = some s
string? _ = none

-- a string that is not empty, and an array that is not
abbrev pub is_filled_string : Option Json → Bool
is_filled_string (some (string s)) = is_set s
is_filled_string _ = false

abbrev pub is_filled_array : Option Json → Bool
is_filled_array (some (array (cons x xs))) = true
is_filled_array _ = false

abbrev pub is_array : Option Json → Bool
is_array (some (array xs)) = true
is_array _ = false

-- `v === s`
abbrev pub is_text : Text → Option Json → Bool
is_text s (some (string t)) = t == s
is_text s _ = false

abbrev pub length_items : Items → ℕ
length_items nil = 0
length_items (cons x xs) = suc (length_items xs)

abbrev pub take_items : ℕ → Items → Items
take_items zero xs = nil
take_items (suc n) nil = nil
take_items (suc n) (cons x xs) = cons x (take_items n xs)

module _ (k : Text) where
  -- What a field reads as after it, or another one, was set.
  pub get_field-set_field :
      (j : Text) (v : Json) (fs : Fields)
      → get_field k (set_field j v fs) ≡ (if j == k then some v else get_field k fs)
  get_field-set_field j v end = ground arith
  get_field-set_field j v (field i w fs) = elim (Bool-cases (i == j)) [
    | inl same ↦ rw (same, (text_beq_iff i j).0 same) (ground arith)
    | inr other ↦ elim (Bool-cases (i == k)) [
      | inl at ↦
          let apart : (j == k) ≡ false = beq-false j k (λ e.
            true≢false (sym ((text_beq_iff i j).1 ((text_beq_iff i k).0 at ∙ sym e)) ∙ other)) in
          rw (other, at, apart) refl
      | inr off ↦ rw (other, off) (get_field-set_field j v fs)
    ]
  ]

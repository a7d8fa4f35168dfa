-- ===== src/Admin/Reading.antt =====
-- What the check of the SQL console, src/admin/sql.ts, finds and what it does not.
use msrouter.Prelude.{
  ℕ, zero, suc, ◌+◌, ◌≤◌, ◌<◌, ◌≡◌, refl, subst, inl, inr, Bool, true, false, not, ◌&&◌, ◌||◌, [],
  ◌∷◌, arith, ◌==◌, text_eq, ltb, Text, text, Bool-cases, text_beq_iff, &&-true,
}
use msrouter.Json.{Json, array, object, Items, cons, Fields, end, field, prop}
use msrouter.Admin.Sql.{
  Statement, is_undefined, is_param_list, is_bad_from, inspect_node, inspect_items, inspect_fields,
  is_read_only_select,
}

pub data ElementOf : Json → Items → Type 0 where
  first : {x : Json} {xs : Items} → ElementOf x (cons x xs)
  later : {x y : Json} {xs : Items} → ElementOf x xs → ElementOf x (cons y xs)

pub data FieldOf : Text → Json → Fields → Type 0 where
  top : {k : Text} {v : Json} {fs : Fields} → FieldOf k v (field k v fs)
  below : {k j : Text} {v w : Json} {fs : Fields} → FieldOf k v fs → FieldOf k v (field j w fs)

-- A part of a tree, with its depth.
pub data PartOf : ℕ → Json → Json → Type 0 where
  whole : {v : Json} → PartOf 0 v v
  in_array :
      {n : ℕ} {x y : Json} {xs : Items}
      → ElementOf y xs
      → PartOf n x y
      → PartOf (suc n) x (array xs)
  in_object :
      {n : ℕ} {k : Text} {x y : Json} {fs : Fields}
      → FieldOf k y fs
      → PartOf n x y
      → PartOf (suc n) x (object fs)

or_false : (a b : Bool) → (a || b) ≡ false → (a ≡ false) × (b ≡ false)
or_false a b h = ground arith

inspect_items-ElementOf :
    (d : ℕ) {x : Json} {xs : Items}
    → inspect_items xs d ≡ false
    → ElementOf x xs
    → inspect_node x d ≡ false
unfolding inspect_items
inspect_items-ElementOf d h (first {x} {xs}) =
    (or_false (inspect_node x d) (inspect_items xs d) h).0
inspect_items-ElementOf d h (later {y = y} {xs} e) =
    inspect_items-ElementOf d (or_false (inspect_node y d) (inspect_items xs d) h).1 e

fields_false :
    (d : ℕ) (k : Text) (v : Json) (fs : Fields)
    → inspect_fields (field k v fs) d ≡ false
    → ((k == text "queriesidx") ≡ false)
      × (is_bad_from k v ≡ false)
      × (inspect_node v d ≡ false)
      × (inspect_fields fs d ≡ false)
unfolding inspect_fields
fields_false d k v fs h =
    let a =
      or_false (k == text "queriesidx")
        (is_bad_from k v || (inspect_node v d || inspect_fields fs d)) h in
    let b = or_false (is_bad_from k v) (inspect_node v d || inspect_fields fs d) a.1 in
    let c = or_false (inspect_node v d) (inspect_fields fs d) b.1 in (a.0, b.0, c.0, c.1)

inspect_fields-FieldOf :
    (d : ℕ) {k : Text} {v : Json} {fs : Fields}
    → inspect_fields fs d ≡ false
    → FieldOf k v fs
    → ((k == text "queriesidx") ≡ false) × (is_bad_from k v ≡ false) × (inspect_node v d ≡ false)
inspect_fields-FieldOf d h (top {k} {v} {fs}) =
    let (a, b, c, rest) = fields_false d k v fs h in (a, b, c)
inspect_fields-FieldOf d h (below {j = j} {w = w} {fs} e) =
    inspect_fields-FieldOf d (fields_false d j w fs h).3 e

-- The equation that a passing inspection gives of the children, one deeper.
inspect_array :
    (d : ℕ) (xs : Items)
    → inspect_node (array xs) d ≡ false
    → d ≤ 64
    → inspect_items xs (d + 1) ≡ false
unfolding inspect_node
inspect_array d xs h fits = let shallow : ltb 64 d ≡ false = ground (arith, fits) in rw shallow at h

inspect_object :
    (d : ℕ) (fs : Fields)
    → inspect_node (object fs) d ≡ false
    → d ≤ 64
    → inspect_fields fs (d + 1) ≡ false
unfolding inspect_node
inspect_object d fs h fits =
    let shallow : ltb 64 d ≡ false = ground (arith, fits) in rw shallow at h

inspect_node-PartOf :
    (d n : ℕ) (x v : Json)
    → inspect_node v d ≡ false
    → PartOf n x v
    → d + n ≤ 64
    → inspect_node x (d + n) ≡ false
inspect_node-PartOf d n x v h whole fits =
    let e : d ≡ d + 0 = omega arith in subst (λ k. inspect_node v k ≡ false) e h
inspect_node-PartOf d (suc n) x v h (in_array {xs = xs} e p) fits =
    let inside = inspect_items-ElementOf (d + 1) (inspect_array d xs h (omega (arith, fits))) e in
    let deeper : (d + 1) + n ≡ d + suc n = omega arith in
    subst (λ k. inspect_node x k ≡ false) deeper
      (inspect_node-PartOf (d + 1) n x _ inside p (omega (arith, fits)))
inspect_node-PartOf d (suc n) x v h (in_object {fs = fs} e p) fits =
    let inside = inspect_fields-FieldOf (d + 1) (inspect_object d fs h (omega (arith, fits))) e in
    let deeper : (d + 1) + n ≡ d + suc n = omega arith in
    subst (λ k. inspect_node x k ≡ false) deeper
      (inspect_node-PartOf (d + 1) n x _ inside.2 p (omega (arith, fits)))

abbrev reads : Statement → Bool
reads s = is_param_list (prop (text "from") s.tree) && not (inspect_node s.tree 0)

abbrev more : Statement → Bool
more s = is_undefined (prop (text "into") s.tree) && reads s

-- A statement that passes, alone, is a SELECT, and of the objects in it, down to the depth of 64, no
-- field is a subquery's, and every list of sources holds the bound parameter only.
pub is_read_only_select-PartOf :
    (s : Statement) (n : ℕ) (fs : Fields) (k : Text) (v : Json)
    → is_read_only_select (s ∷ []) ≡ true
    → PartOf n (object fs) s.tree
    → n ≤ 64
    → FieldOf k v fs
    → (s.constructor_name ≡ text "Select")
      × ((k == text "queriesidx") ≡ false)
      × (is_bad_from k v ≡ false)
unfolding is_read_only_select
is_read_only_select-PartOf s n fs k v h p fits e =
    let (select, rest) = &&-true (s.constructor_name == text "Select") (more s) h in
    let (no_into, rest') = &&-true (is_undefined (prop (text "into") s.tree)) (reads s) rest in
    let (sources, passed) =
      &&-true (is_param_list (prop (text "from") s.tree)) (not (inspect_node s.tree 0)) rest' in
    let clear : inspect_node s.tree 0 ≡ false = ground arith in
    let deep = inspect_node-PartOf 0 n (object fs) s.tree clear p (omega (arith, fits)) in
    let at : 0 + n ≡ n = omega arith in
    let seen = subst (λ j. inspect_node (object fs) j ≡ false) at deep in
    let found = inspect_fields-FieldOf (n + 1) (inspect_object n fs seen fits) e in
    ((text_beq_iff s.constructor_name (text "Select")).0 select, found.0, found.1)

-- An object in an object, so many times.
abbrev pub nest : ℕ → Json → Json
nest zero v = v
nest (suc n) v = object (field (text "expression") (nest n v) end)

below_depth : (d : ℕ) → 64 < d → ltb 64 d ≡ true
below_depth d deep = ground (arith, deep)

deep_unseen : (d : ℕ) (v : Json) → 64 < d → inspect_node v d ≡ false
unfolding inspect_node
deep_unseen d (array xs) deep = rw (below_depth d deep) refl
deep_unseen d (object fs) deep = rw (below_depth d deep) refl
deep_unseen d _ deep = refl

is_bad_from-expression : (v : Json) → is_bad_from (text "expression") v ≡ false
is_bad_from-expression (array xs) = refl
is_bad_from-expression _ = refl

-- What stands deeper than 64 is not looked at: any tree at all passes there.
pub inspect_node-nest : (n d : ℕ) (v : Json) → 64 < n + d → inspect_node (nest n v) d ≡ false
unfolding inspect_node inspect_fields
inspect_node-nest zero d v deep = deep_unseen d v (omega (arith, deep))
inspect_node-nest (suc n) d v deep = elim (Bool-cases (ltb 64 d)) [
  | inl far ↦ rw far refl
  | inr near ↦
      rw
        (
          near,
          is_bad_from-expression (nest n v),
          inspect_node-nest n (d + 1) v (omega (arith, deep)),
        )
        refl
]

-- ===== src/Routing/Distinct.antt =====
-- Which models one provider contributes, and how many entries the OpenRouter pool has:
-- `extraRoutingEntries` and `buildRoutingEntries`.
use msrouter.Prelude.{
  ℕ, ◌+◌, ◌*◌, ◌≡◌, refl, inl, inr, Bool, false, not, ◌&&◌, ◌||◌, List, [], ◌∷◌, arith, ◌==◌,
  text_eq, length, length-append, keep, contains, contains-keep, Text, text_beq_iff, Bool-cases,
}
use msrouter.Routing.Free.{with_free}
use msrouter.Routing.Extras.{ResolvedConfig, unique_after, differs, slot_models}
use msrouter.Routing.Entries.{key_entries, openrouter_entries}

-- No text stands twice.
abbrev pub Distinct : List Text → Type 0
Distinct [] = Unit
Distinct (x ∷ xs) = (contains x xs ≡ false) × Distinct xs

contains-unique_after :
    (m : Text) (seen xs : List Text)
    → contains m (unique_after seen xs) ≡ (contains m xs && not (contains m seen))
unfolding unique_after
contains-unique_after m seen [] = refl
contains-unique_after m seen (x ∷ xs) = ground (
  arith,
  contains-unique_after m seen xs,
  contains-unique_after m (x ∷ seen) xs,
  text_beq_iff x m,
)

unique_after-Distinct : (seen xs : List Text) → Distinct (unique_after seen xs)
unfolding unique_after
unique_after-Distinct seen [] = tt
unique_after-Distinct seen (x ∷ xs) = elim (Bool-cases (contains x seen)) [
  | inl old ↦ rw old (unique_after-Distinct seen xs)
  | inr new ↦ rw new (
    ground (arith, contains-unique_after x (x ∷ seen) xs, text_beq_iff x x),
    unique_after-Distinct (x ∷ seen) xs,
  )
]

keep-Distinct : (p : Text → Bool) (xs : List Text) → Distinct xs → Distinct (keep p xs)
keep-Distinct p [] d = tt
keep-Distinct p (x ∷ xs) d = ground (arith, keep-Distinct p xs d.1, contains-keep p x xs)

-- The models of a provider's entries are the primary one and every listed one, and no model stands
-- twice.
slot_models_lem :
    (primary : Text) (more : List Text)
    → Distinct (slot_models primary more)
      × ((m : Text) → contains m (slot_models primary more) ≡ (primary == m || contains m more))
unfolding slot_models
slot_models_lem primary more = (
  (
    ground (
      arith,
      contains-keep (differs primary) primary (unique_after [] more),
      text_beq_iff primary primary,
    ),
    keep-Distinct (differs primary) (unique_after [] more) (unique_after-Distinct [] more),
  ),
  λ m. ground (
    arith,
    contains-keep (differs primary) m (unique_after [] more),
    contains-unique_after m [] more,
    text_beq_iff primary m,
    text_beq_iff m primary,
  ),
)

length-key_entries :
    (model : Text) (i : ℕ) (ks : List Text) → length (key_entries model i ks) ≡ length ks
unfolding key_entries
length-key_entries model i [] = refl
length-key_entries model i (k ∷ ks) = omega (arith, length-key_entries model (i + 1) ks)

-- The OpenRouter pool has one entry for each pair of a model and a key.
length-openrouter_entries :
    (c : ResolvedConfig) (models : List Text)
    → length (openrouter_entries c models) ≡ length models * length c.openrouter_keys
unfolding openrouter_entries
length-openrouter_entries c [] = omega arith
length-openrouter_entries c (m ∷ ms) = grind (
  arith,
  length-append (key_entries (with_free m c.env.force_free) 0 c.openrouter_keys)
      (openrouter_entries c ms),
  length-key_entries (with_free m c.env.force_free) 0 c.openrouter_keys,
  length-openrouter_entries c ms,
)

-- ===== src/Director/Confirmed.antt =====
-- What the confirmed submissions of a tracker count: `countConfirmedSubmissions`,
-- src/director/submitted-count.ts, and the counters of `readTrackerSummary`, src/director/observe.ts.
use msrouter.Prelude.{
  ℕ, suc, ◌+◌, ◌≤◌, ◌≡◌, refl, ◌∙◌, inl, inr, Bool, true, false, ◌&&◌, ◌||◌, Option, some, List, [],
  ◌∷◌, ◌++◌, arith, ◌==◌, text_eq, contains, add, contains-add, contains-append, length,
  length-append, Text, text, Bool-cases, text_beq_iff, text_beq_sound, &&-true,
}
use msrouter.Json.{Json, string, is_text, is_object, Items, nil, cons, prop, items?, length_items}
use msrouter.Routing.Distinct.{Distinct}
use msrouter.Director.Tracker.{
  application_key, has_status, submitted_keys, count_confirmed_submissions, count_status, summary,
}

-- Some submitted row has the key.
abbrev pub has_key : Text → Items → Bool
has_key k nil = false
has_key k (cons a rows) =
    (has_status (text "submitted") a && application_key a == k) || has_key k rows

snoc-Distinct :
    (k : Text) (ks : List Text) → contains k ks ≡ false → Distinct ks → Distinct (ks ++ k ∷ [])
snoc-Distinct k [] h d = (refl, tt)
snoc-Distinct k (j ∷ ks) h d = (
  ground (arith, d.0, h, contains-append j ks (k ∷ []), text_beq_iff j k, text_beq_iff k j),
  snoc-Distinct k ks (ground (arith, h)) d.1,
)

add-Distinct : (k : Text) (ks : List Text) → Distinct ks → Distinct (add k ks)
add-Distinct k ks d = elim (Bool-cases (contains k ks)) [
  | inl old ↦ rw old d
  | inr new ↦ rw new (snoc-Distinct k ks new d)
]

length-add : (k : Text) (ks : List Text) → length (add k ks) ≤ suc (length ks)
length-add k ks = elim (Bool-cases (contains k ks)) [
  | inl old ↦ rw old (omega arith)
  | inr new ↦ rw (new, length-append ks (k ∷ [])) (omega arith)
]

submitted_keys-Distinct :
    (rows : Items) (seen : List Text) → Distinct seen → Distinct (submitted_keys rows seen)
unfolding submitted_keys
submitted_keys-Distinct nil seen d = d
submitted_keys-Distinct (cons a rows) seen d = elim (Bool-cases (has_status (text "submitted") a)) [
  | inl yes_ ↦ rw yes_ (
      submitted_keys-Distinct rows (add (application_key a) seen)
        (add-Distinct (application_key a) seen d))
  | inr no_ ↦ rw no_ (submitted_keys-Distinct rows seen d)
]

contains-submitted_keys :
    (k : Text) (rows : Items) (seen : List Text)
    → contains k (submitted_keys rows seen) ≡ (contains k seen || has_key k rows)
unfolding submitted_keys
contains-submitted_keys k nil seen = ground arith
contains-submitted_keys k (cons a rows) seen = elim (Bool-cases (has_status (text "submitted") a)) [
  | inl counts ↦ rw counts (
      contains-submitted_keys k rows (add (application_key a) seen)
      ∙ rw (contains-add k (application_key a) seen) (ground arith))
  | inr other ↦ rw other (contains-submitted_keys k rows seen)
]

and_false : (b : Bool) → (b && false) ≡ false
and_false true = refl
and_false false = refl

not_both_texts :
    (o : Option Json) → is_text (text "submitted") o ≡ true → is_text (text "attempted") o ≡ false
not_both_texts (some (string s)) h = rw (text_beq_sound s (text "submitted") h) refl
not_both_texts _ h = cc

not_both :
    (a : Json) → has_status (text "submitted") a ≡ true → has_status (text "attempted") a ≡ false
not_both a h =
    let other =
      not_both_texts (prop (text "status") a)
        (&&-true (is_object a) (is_text (text "submitted") (prop (text "status") a)) h).1 in
    rw other (and_false (is_object a))

length-submitted_keys :
    (rows : Items) (seen : List Text)
    → length (submitted_keys rows seen) + count_status (text "attempted") rows
      ≤ length seen + length_items rows
unfolding submitted_keys
length-submitted_keys nil seen = omega arith
length-submitted_keys (cons a rows) seen = elim (Bool-cases (has_status (text "submitted") a)) [
  | inl counts ↦
      rw (counts, not_both a counts)
        (omega (
          arith,
          length-submitted_keys rows (add (application_key a) seen),
          length-add (application_key a) seen,
        ))
  | inr other ↦ rw other (ground (arith, length-submitted_keys rows seen))
]

-- The count of a tracker with a list of applications is the number of the different keys that its
-- submitted rows have: each such key counts once, and nothing else counts.
pub count_confirmed_submissions_lem :
    (t : Json) (rows : Items)
    → items? (prop (text "applications") t) ≡ some rows
    → (ks : List Text) × (count_confirmed_submissions t ≡ some (length ks))
      × Distinct ks
      × ((k : Text) → contains k ks ≡ has_key k rows)
unfolding count_confirmed_submissions
count_confirmed_submissions_lem t rows e = (
  submitted_keys rows [],
  rw e refl,
  submitted_keys-Distinct rows [] tt,
  λ k. contains-submitted_keys k rows [],
)

-- In a summary of a tracker with a list of applications, the confirmed submissions and the attempts
-- are together no more than the rows of the list, whatever the tracker's own counters say.
pub summary-rows :
    (value : Text → ℕ) (t : Json) (rows : Items)
    → items? (prop (text "applications") t) ≡ some rows
    → (summary value t).submitted + (summary value t).attempted ≤ length_items rows
unfolding summary count_confirmed_submissions
summary-rows value t rows e = rw e (omega (arith, length-submitted_keys rows []))

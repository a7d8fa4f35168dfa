-- ===== src/Fetch/Delivery.antt =====
-- Which streams of server-sent events deliver something, said line by line and without the code's own
-- tests: `checkStreamContent`, src/providers/stream-check.ts.
use msrouter.Prelude.{
  or-cases, ℕ, ◌≡◌, ◌≢◌, ◌↔◌, inl, inr, refl, ap, sym, ◌∙◌, Bool, true, false, Option, some, [],
  ◌∷◌, ◌++◌, ◌==◌, text_eq, text_beq_iff, if◌then◌else◌, drop, Text, text, starts_with, trim,
  Bool-cases, Option-cases, arith, subst, length, &&-true, nat_beq, nat_beq_iff,
}
use mathlib.Core.Option.{some_inj}
use msrouter.Json.{
  Json, string, Items, nil, cons, array, prop, prop?, truthy?, is_filled_string, is_filled_array,
}
use msrouter.Fetch.Stream.{
  Verdict, undecided, has_content, has_error, delta_delivers, some_delivers, list_delivers,
  event_verdict, line_verdict,
}

-- A choice whose delta has a text that is not empty, or a list of tool calls that is not empty.
pub data Filled (c : Json) : Type 0 where
  content :
      (u : ℕ) (s : Text)
      → prop? (text "content") (prop (text "delta") c) ≡ some (string (u ∷ s))
      → Filled c
  tool_calls :
      (x : Json) (xs : Items)
      → prop? (text "tool_calls") (prop (text "delta") c) ≡ some (array (cons x xs))
      → Filled c

pub data SomeFilled : Items → Type 0 where
  first : {c : Json} {cs : Items} → Filled c → SomeFilled (cons c cs)
  other : {c : Json} {cs : Items} → SomeFilled cs → SomeFilled (cons c cs)

is_filled_string-cases :
    (o : Option Json)
    → is_filled_string o ≡ true
    → (u : ℕ) × (s : Text) × (o ≡ some (string (u ∷ s)))
is_filled_string-cases (some (string (u ∷ s))) h = (u, s, refl)
is_filled_string-cases _ h = cc

is_filled_array-cases :
    (o : Option Json)
    → is_filled_array o ≡ true
    → (x : Json) × (xs : Items) × (o ≡ some (array (cons x xs)))
is_filled_array-cases (some (array (cons x xs))) h = (x, xs, refl)
is_filled_array-cases _ h = cc

delta_delivers-Filled : (c : Json) → delta_delivers c ≡ true → Filled c
delta_delivers-Filled c h =
    elim (or-cases (is_filled_string (prop? (text "content") (prop (text "delta") c))) _ h) [
      | inl t ↦ let (u, s, e) = is_filled_string-cases _ t in content u s e
      | inr t ↦ let (x, xs, e) = is_filled_array-cases _ t in tool_calls x xs e
    ]

Filled-delta_delivers : (c : Json) → Filled c → delta_delivers c ≡ true
Filled-delta_delivers c (content u s e) = rw e refl
Filled-delta_delivers c (tool_calls x xs e) = rw e (ground arith)

some_delivers-SomeFilled : (cs : Items) → some_delivers cs ≡ true → SomeFilled cs
some_delivers-SomeFilled nil h = cc
some_delivers-SomeFilled (cons c cs) h = elim (or-cases (delta_delivers c) _ h) [
  | inl here ↦ first (delta_delivers-Filled c here)
  | inr later ↦ other (some_delivers-SomeFilled cs later)
]

SomeFilled-some_delivers : (cs : Items) → SomeFilled cs → some_delivers cs ≡ true
SomeFilled-some_delivers nil h = elim h [ ]
SomeFilled-some_delivers (cons c cs) (first f) = rw (Filled-delta_delivers c f) refl
SomeFilled-some_delivers (cons c cs) (other f) = rw (SomeFilled-some_delivers cs f) (ground arith)

list_delivers-cases :
    (o : Option Json)
    → list_delivers o ≡ true
    → (cs : Items) × (o ≡ some (array cs)) × SomeFilled cs
list_delivers-cases (some (array cs)) h = (cs, refl, some_delivers-SomeFilled cs h)
list_delivers-cases _ h = cc

-- An event that reports an error, and one that reports none and has a choice that is filled.
abbrev pub IsError : Json → Type 0
IsError j = truthy? (prop (text "error") j) ≡ true

abbrev pub IsContent : Json → Type 0
IsContent j =
    (truthy? (prop (text "error") j) ≡ false)
    × ((cs : Items) × (prop (text "choices") j ≡ some (array cs)) × SomeFilled cs)

-- what a verdict says of an event
abbrev pub Means : Type 0 → Type 0 → Verdict → Type 0
Means bad good undecided = (¬ bad) × (¬ good)
Means bad good has_content = (¬ bad) × good
Means bad good has_error = bad × (¬ good)

not_both : (b : Bool) → b ≡ true → b ≡ false → ⊥
not_both b h g = cc

Means-if :
    (bad good : Type 0) (e f : Bool)
    → (e ≡ true → bad)
    → (e ≡ false → ¬ bad)
    → (e ≡ false → f ≡ true → good)
    → (f ≡ false → ¬ good)
    → (good → e ≡ false)
    → Means bad good (if e then has_error else if f then has_content else undecided)
Means-if bad good true f b nb g ng ok = (b refl, λ h. not_both true refl (ok h))
Means-if bad good false true b nb g ng ok = (nb refl, g refl refl)
Means-if bad good false false b nb g ng ok = (nb refl, ng refl)

Means-map :
    (bad good bad' good' : Type 0) (v : Verdict)
    → (bad ↔ bad')
    → (good ↔ good')
    → Means bad good v
    → Means bad' good' v
Means-map bad good bad' good' undecided b g (nb, ng) = (λ h. nb (b.1 h), λ h. ng (g.1 h))
Means-map bad good bad' good' has_content b g (nb, full) = (λ h. nb (b.1 h), g.0 full)
Means-map bad good bad' good' has_error b g (worse, ng) = (b.0 worse, λ h. ng (g.1 h))

event_verdict-Means : (j : Json) → Means (IsError j) (IsContent j) (event_verdict j)
unfolding event_verdict
event_verdict-Means j =
    Means-if (IsError j) (IsContent j) (truthy? (prop (text "error") j))
      (list_delivers (prop (text "choices") j)) (λ h. h) (λ ok bad. not_both _ bad ok)
      (λ ok full. (ok, list_delivers-cases _ full))
      (λ empty (_, (cs, here, filled)).
        not_both _ (ap list_delivers here ∙ SomeFilled-some_delivers cs filled) empty)
      (λ h. h.0)

starts_with-drop : (p l : Text) → starts_with p l ≡ true → l ≡ p ++ drop (length p) l
starts_with-drop [] l h = refl
starts_with-drop (c ∷ p) [] h = cc
starts_with-drop (c ∷ p) (x ∷ l) h =
    let (same, more) = &&-true (nat_beq c x) _ h in
    ap (λ y. y ∷ l) (sym ((nat_beq_iff c x).0 same)) ∙ ap (◌∷◌ c) (starts_with-drop p l more)

starts_with-append : (p s : Text) → starts_with p (p ++ s) ≡ true
starts_with-append [] s = refl
starts_with-append (c ∷ p) s = rw ((nat_beq_iff c c).1 refl) (starts_with-append p s)

module _ (parse : Text → Option Json) where
  -- A line that holds an event: `data: ` with its JSON, blanks around it aside.
  abbrev pub Holds : Text → Json → Type 0
  Holds l j =
      (rest : Text) × (l ≡ text "data: " ++ rest)
      × (trim rest ≢ text "[DONE]")
      × (parse (trim rest) ≡ some j)

  abbrev pub ErrorLine : Text → Type 0
  ErrorLine l = (j : Json) × Holds l j × IsError j

  abbrev pub ContentLine : Text → Type 0
  ContentLine l = (j : Json) × Holds l j × IsContent j

  Holds-drop :
      (l : Text) (j : Json)
      → Holds l j
      → (starts_with (text "data: ") l ≡ true)
        × (trim (drop 6 l) ≢ text "[DONE]")
        × (parse (trim (drop 6 l)) ≡ some j)
  Holds-drop l j (rest, whole, going, here) = (
    ap (starts_with (text "data: ")) whole ∙ starts_with-append (text "data: ") rest,
    λ e. going (ap (λ x. trim (drop 6 x)) (sym whole) ∙ e),
    ap (λ x. parse (trim (drop 6 x))) whole ∙ here,
  )

  drop-Holds :
      (l : Text) (j : Json)
      → starts_with (text "data: ") l ≡ true
      → (trim (drop 6 l) == text "[DONE]") ≡ false
      → parse (trim (drop 6 l)) ≡ some j
      → Holds l j
  drop-Holds l j starts going here = (
    drop 6 l,
    starts_with-drop (text "data: ") l starts,
    λ e. not_both _ ((text_beq_iff _ _).1 e) going,
    here,
  )

  nothing : (l : Text) → ((j : Json) → Holds l j → ⊥) → (¬ ErrorLine l) × (¬ ContentLine l)
  nothing l h = (λ (j, holds, _). h j holds, λ (j, holds, _). h j holds)

  pub line_verdict-Means : (l : Text) → Means (ErrorLine l) (ContentLine l) (line_verdict parse l)
  unfolding line_verdict
  line_verdict-Means l = elim (Bool-cases (starts_with (text "data: ") l)) [
    | inr apart ↦ rw apart (nothing l (λ j h. not_both _ (Holds-drop l j h).0 apart))
    | inl starts ↦ elim (Bool-cases (trim (drop 6 l) == text "[DONE]")) [
      | inl done ↦
          rw (starts, done) (nothing l (λ j h. (Holds-drop l j h).1 ((text_beq_iff _ _).0 done)))
      | inr going ↦ elim (Option-cases (parse (trim (drop 6 l)))) [
        | inl bad ↦ rw (starts, going, bad) (nothing l (λ j h. cc (sym bad ∙ (Holds-drop l j h).2)))
        | inr (j, good) ↦
            let holds = drop-Holds l j starts going good in
            let only : (i : Json) → Holds l i → i ≡ j =
              λ i h. some_inj.0 (sym (Holds-drop l i h).2 ∙ good) in
            rw (starts, going, good)
              (Means-map _ _ _ _ (event_verdict j)
                (λ bad. (j, holds, bad), λ (i, h, bad). subst IsError (only i h) bad)
                (λ full. (j, holds, full), λ (i, h, full). subst IsContent (only i h) full)
                (event_verdict-Means j))
      ]
    ]
  ]

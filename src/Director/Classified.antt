-- ===== src/Director/Classified.antt =====
-- What the classification of a campaign's events depends on: src/director/classify.ts.
use msrouter.Prelude.{
  ℕ, ◌+◌, ◌≡◌, ◌≢◌, ◌↔◌, ◌≤◌, ◌*◌, refl, sym, &&-true, not-true, ◌∙◌, inl, inr, none, some, Bool,
  true, false, not, ◌&&◌, ◌||◌, Option, List, [], ◌∷◌, ◌++◌, ◌==◌, nat_eq, text_eq, leb, arith,
  if◌then◌else◌, some_of, Text, text, is_set, Map, get, set, get-set, Bool-cases, text_beq_iff,
}
use msrouter.Json.{Json}
use msrouter.Director.Events.{CampaignEvent}
use msrouter.Director.Tracker.{or_else}
use msrouter.Director.Classify.{
  Kind, stale_campaign, DecisionClassification, classify_submission, classify_skip, company_of,
  is_submitted, classify_events, is_idle, is_empty, staleness, stale_of, classify, skip_class,
  submission_class, str, is_excluded_title, is_portal_error, is_core_stack,
}

-- How often a company was submitted to in some events.
abbrev pub submissions_of : Text → List CampaignEvent → ℕ
submissions_of company [] = 0
submissions_of company (e ∷ es) =
    (if is_submitted e && company_of e == company then 1 else 0) + submissions_of company es

-- What an event is classified as, from the events before it.
abbrev pub class_of : List CampaignEvent → CampaignEvent → List DecisionClassification
class_of before e =
    if is_submitted e
    then classify_submission (submissions_of (company_of e) before) (company_of e) e.record_of ∷ []
    else if e.action == text "skippedFilter"
    then classify_skip e.record_of
    else []

abbrev pub classes_of : List CampaignEvent → List CampaignEvent → List DecisionClassification
classes_of before [] = []
classes_of before (e ∷ es) = class_of before e ++ classes_of (e ∷ before) es

counts-next :
    (c name : Text) (counts : Map Text ℕ) (n : ℕ)
    → or_else (get c (set name (n + 1) counts)) 0
      ≡ (if name == c then n + 1 else or_else (get c counts) 0)
counts-next c name counts n = rw (get-set c name (n + 1) counts) (ground arith)

classify_events-counts :
    (es before : List CampaignEvent) (counts : Map Text ℕ)
    → ((c : Text) → or_else (get c counts) 0 ≡ submissions_of c before)
    → classify_events es counts ≡ classes_of before es
unfolding classify_events
classify_events-counts [] before counts h = refl
classify_events-counts (e ∷ es) before counts h = elim (Bool-cases (is_submitted e)) [
  | inl submission ↦
      let prev = or_else (get (company_of e) counts) 0 in
      let next = classify_events-counts es (e ∷ before) (set (company_of e) (prev + 1) counts) (λ c.
        counts-next c (company_of e) counts prev
        ∙ rw (submission, h c) (ground (arith, h (company_of e), text_beq_iff (company_of e) c))) in
      rw (classify_events, submission, next, h (company_of e)) refl
  | inr other ↦
      let next =
        classify_events-counts es (e ∷ before) counts (λ c. rw other (h c ∙ omega arith)) in
      rw (classify_events, other, next) refl
]

-- Each event of a window is classified on its own and in order; a submission depends on the events
-- before it only by how many of them were submissions to the same company.
pub classify_events-classes_of :
    (es : List CampaignEvent) → classify_events es [] ≡ classes_of [] es
classify_events-classes_of es = classify_events-counts es [] [] (λ c. refl)

abbrev stale_kind : Kind → Bool
stale_kind stale_campaign = true
stale_kind _ = false

-- whether a classification says that the campaign is stale
abbrev pub is_stale : DecisionClassification → Bool
is_stale c = stale_kind c.kind

some_of-append :
    (p : DecisionClassification → Bool) (xs ys : List DecisionClassification)
    → some_of p (xs ++ ys) ≡ (some_of p xs || some_of p ys)
some_of-append p [] ys = refl
some_of-append p (x ∷ xs) ys = ground (arith, some_of-append p xs ys)

some_of-skip_class :
    (p c : Bool) (detail title id : Text)
    → some_of is_stale (skip_class p c detail title id) ≡ false
some_of-skip_class true c detail title id = refl
some_of-skip_class false true detail title id = refl
some_of-skip_class false false detail title id = refl

is_stale-submission_class :
    (x d : Bool) (n : ℕ) (company title id : Text)
    → is_stale (submission_class x d n company title id) ≡ false
is_stale-submission_class true d n company title id = refl
is_stale-submission_class false true n company title id = refl
is_stale-submission_class false false n company title id = refl

some_of-classify_skip : (r : Json) → some_of is_stale (classify_skip r) ≡ false
some_of-classify_skip r =
    some_of-skip_class (is_portal_error (str (text "detail") r))
      (is_set (str (text "roleTitle") r)
        && (not (is_excluded_title (str (text "roleTitle") r))
            && is_core_stack (str (text "roleTitle") r)))
      (str (text "detail") r) (str (text "roleTitle") r) (str (text "id") r)

is_stale-classify_submission :
    (n : ℕ) (c : Text) (r : Json) → is_stale (classify_submission n c r) ≡ false
is_stale-classify_submission n c r =
    is_stale-submission_class (is_excluded_title (str (text "roleTitle") r)) (leb 1 n && is_set c)
      (n + 1) c (str (text "roleTitle") r) (str (text "id") r)

some_of-classify_events :
    (es : List CampaignEvent) (counts : Map Text ℕ)
    → some_of is_stale (classify_events es counts) ≡ false
unfolding classify_events
some_of-classify_events [] counts = refl
some_of-classify_events (e ∷ es) counts = elim (Bool-cases (is_submitted e)) [
  | inl submission ↦
      rw (classify_events, submission)
        (ground (
          arith,
          is_stale-classify_submission (or_else (get (company_of e) counts) 0) (company_of e)
              e.record_of,
          some_of-classify_events es
              (set (company_of e) (or_else (get (company_of e) counts) 0 + 1) counts),
        ))
  | inr other ↦
      rw (classify_events, other)
        (elim (Bool-cases (e.action == text "skippedFilter")) [
          | inl skip ↦
              rw
                (
                  skip,
                  some_of-append is_stale (classify_skip e.record_of) (classify_events es counts),
                  some_of-classify_skip e.record_of,
                )
                (some_of-classify_events es counts)
          | inr none_ ↦ rw none_ (some_of-classify_events es counts)
        ])
]

if_stale : (b : Bool) (ms : ℕ) → some_of is_stale (if b then stale_of ms ∷ [] else []) ≡ b
if_stale true ms = refl
if_stale false ms = refl

module _ (millis : Text → Option ℕ) (threshold : ℕ) where
  pub some_of-classify :
      (complete : Bool) (es : List CampaignEvent) (now last : Text)
      → some_of is_stale (classify millis threshold complete es now last) ≡ (
          (not complete && is_empty es)
          && (is_set last && is_idle threshold (millis now) (millis last)))
  unfolding classify
  some_of-classify complete es now last =
      rw
        (
          some_of-append is_stale (classify_events es [])
              (staleness millis threshold complete es now last),
          some_of-classify_events es [],
        )
        (if_stale _ _)

  -- a date that lies the threshold or more, in minutes, behind another
  abbrev pub LiesBehind : Text → Text → Type 0
  LiesBehind last now =
      (at : ℕ) × (present : ℕ) × (millis last ≡ some at)
      × (millis now ≡ some present)
      × (at + threshold * 60000 ≤ present)

  is_idle-LiesBehind :
      (now last : Text) (o p : Option ℕ)
      → millis now ≡ o
      → millis last ≡ p
      → is_idle threshold o p ≡ true
      → LiesBehind last now
  is_idle-LiesBehind now last (some n) (some l) a b h = (l, n, b, a, ground arith)
  is_idle-LiesBehind now last none p a b h = cc
  is_idle-LiesBehind now last (some n) none a b h = cc

  LiesBehind-is_idle :
      (now last : Text) → LiesBehind last now → is_idle threshold (millis now) (millis last) ≡ true
  LiesBehind-is_idle now last (l, n, b, a, h) = rw (a, b) (ground arith)

  is_set-filled : (s : Text) → is_set s ≡ true → s ≢ []
  is_set-filled [] h = cc
  is_set-filled (c ∷ s) h = λ e. cc

  filled-is_set : (s : Text) → s ≢ [] → is_set s ≡ true
  filled-is_set [] h = absurd (h refl)
  filled-is_set (c ∷ s) h = refl

  is_empty-nil : (es : List CampaignEvent) → is_empty es ≡ true → es ≡ []
  is_empty-nil [] h = refl
  is_empty-nil (e ∷ es) h = cc

  -- A campaign is called stale exactly if it is not complete, the window has no event, and the last
  -- activity has a date that lies the threshold or more, in minutes, behind the present.
  pub classify-stale :
      (complete : Bool) (es : List CampaignEvent) (now last : Text)
      → (some_of is_stale (classify millis threshold complete es now last) ≡ true)
        ↔ ((complete ≡ false) × (es ≡ []) × (last ≢ []) × LiesBehind last now)
  classify-stale complete es now last = (
    λ h.
        let all = sym (some_of-classify complete es now last) ∙ h in
        let open_empty = &&-true (not complete) (is_empty es) (&&-true _ _ all).0 in
        let dated = &&-true (is_set last) _ (&&-true _ _ all).1 in
        (
          not-true complete open_empty.0,
          is_empty-nil es open_empty.1,
          is_set-filled last dated.0,
          is_idle-LiesBehind now last (millis now) (millis last) refl refl dated.1,
        ),
    λ (running, quiet, filled, behind).
        some_of-classify complete es now last
        ∙ rw (running, quiet, filled-is_set last filled, LiesBehind-is_idle now last behind) refl,
  )

-- ===== src/Director/Classify.antt =====
-- The classification of a campaign's events, src/director/classify.ts. Times are what `getTime` makes
-- of a date, in milliseconds, which is a parameter, `none` for a date that cannot be read.
use msrouter.Prelude.{
  ℕ, ◌+◌, ◌-◌, ◌*◌, ◌/◌, Bool, true, false, not, ◌&&◌, ◌||◌, Option, none, some, List, [], ◌∷◌,
  ◌++◌, ◌==◌, nat_eq, text_eq, leb, if◌then◌else◌, length, some_of, starts_with, drop, includes,
  to_lower, Text, text, is_set, Map, get, set,
}
use msrouter.Json.{Json, prop}
use msrouter.Routing.Entries.{decimal}
use msrouter.Director.Events.{CampaignEvent}
use msrouter.Director.Outbox.{skip_blanks}
use msrouter.Director.Tracker.{scalar, or_else}

pub data Kind : Type 0 where
  good_apply risky_apply missed_apply bad_skip duplicate_risk portal_error stale_campaign : Kind

pub data Severity : Type 0 where
  info warn critical : Severity

pub record DecisionClassification : Type 0 where
  pub event_id : Option Text
  pub kind : Kind
  pub severity : Severity
  pub reason : Text
  pub evidence : Option Text

-- `\w`
abbrev is_word_unit : ℕ → Bool
is_word_unit c =
    (leb b'a' c && leb c b'z')
    || ((leb b'A' c && leb c b'Z') || ((leb b'0' c && leb c b'9') || c == b'_'))

abbrev ends_word : Text → Bool
ends_word [] = true
ends_word (c ∷ s) = not (is_word_unit c)

-- `/\bw\b/`, with the test of the unit before the text
abbrev has_word : Text → Bool → Text → Bool
has_word w inside [] = false
has_word w inside (c ∷ s) =
    let later = has_word w (is_word_unit c) s in
    (not inside && (starts_with w (c ∷ s) && ends_word (drop (length w) (c ∷ s)))) || later

-- `/a\s*b/`
abbrev has_pair : Text → Text → Text → Bool
has_pair a b [] = false
has_pair a b (c ∷ s) =
    let later = has_pair a b s in
    (starts_with a (c ∷ s) && starts_with b (skip_blanks (drop (length a) (c ∷ s)))) || later

abbrev is_digit : Text → Bool
is_digit [] = false
is_digit (c ∷ s) = leb b'0' c && leb c b'9'

-- `/5\d\d/`
abbrev has_5xx : Text → Bool
has_5xx [] = false
has_5xx (c ∷ s) =
    let later = has_5xx s in (c == b'5' && (is_digit s && is_digit (drop 1 s))) || later

-- `EXCLUDED_TITLE`
unfoldable pub is_excluded_title : Text → Bool
is_excluded_title title =
    let s = to_lower title in
    has_pair (text "team") (text "lead") s
    || (has_pair (text "tech") (text "lead") s
        || (has_pair (text "technical") (text "lead") s
            || (some_of (λ w. includes w s)
                  (text "principal"
                    ∷ text "staff"
                    ∷ text "architect"
                    ∷ text "manager"
                    ∷ text "director"
                    ∷ [])
                || (has_word (text "head") false s || has_word (text "vp") false s))))

-- `PORTAL_ERROR`
unfoldable pub is_portal_error : Text → Bool
is_portal_error detail =
    let s = to_lower detail in
    some_of (λ w. includes w s) (text "login" ∷ text "captcha" ∷ text "timeout" ∷ text "429" ∷ [])
    || has_5xx s

-- `CORE_STACK`
unfoldable pub is_core_stack : Text → Bool
is_core_stack title =
    let s = to_lower title in
    some_of (λ w. includes w s)
      (text "java"
        ∷ text "kotlin"
        ∷ text "spring"
        ∷ text "php"
        ∷ text "laravel"
        ∷ text "node"
        ∷ text "react"
        ∷ [])

abbrev pub str : Text → Json → Text
str k r = scalar (prop k r)

abbrev quoted : Text → Text
quoted s = 34 ∷ (s ++ (34 ∷ []))

abbrev title_or_none : Text → Text
title_or_none title = if is_set title then title else text "(no title)"

abbrev submission_reason : ℕ → Text → Text
submission_reason n company =
    text "Company "
    ++ (quoted company ++ (text " submitted " ++ (decimal n ++ text " times in this window")))

-- what a submission is, by the two tests
abbrev pub submission_class :
    (excluded repeated : Bool) → (n : ℕ) (company title id : Text) → DecisionClassification
submission_class true repeated n company title id = record {
  event_id = some id;
  kind = risky_apply;
  severity = critical;
  reason = text "Submitted an excluded seniority/title: " ++ quoted title;
  evidence = some title;
}
submission_class false true n company title id = record {
  event_id = some id;
  kind = duplicate_risk;
  severity = critical;
  reason = submission_reason n company;
  evidence = some company;
}
submission_class false false n company title id = record {
  event_id = some id;
  kind = good_apply;
  severity = info;
  reason = text "Clean submission: " ++ title_or_none title;
  evidence = none;
}

-- after `prev` other submissions to the same company
abbrev pub classify_submission : ℕ → Text → Json → DecisionClassification
classify_submission prev company r =
    submission_class (is_excluded_title (str (text "roleTitle") r)) (leb 1 prev && is_set company)
      (prev + 1) company (str (text "roleTitle") r) (str (text "id") r)

-- what a skip is, by the two tests
abbrev pub skip_class :
    (portal core : Bool) → (detail title id : Text) → List DecisionClassification
skip_class true core detail title id =
    record {
      event_id = some id;
      kind = portal_error;
      severity = warn;
      reason = text "Portal error pattern: " ++ quoted detail;
      evidence = some detail;
    }
    ∷ []
skip_class false true detail title id =
    record {
      event_id = some id;
      kind = bad_skip;
      severity = warn;
      reason = text "Manually skipped a core-stack role: " ++ quoted title;
      evidence = some title;
    }
    ∷ []
skip_class false false detail title id = []

abbrev pub classify_skip : Json → List DecisionClassification
classify_skip r =
    let title = str (text "roleTitle") r in
    skip_class (is_portal_error (str (text "detail") r))
      (is_set title && (not (is_excluded_title title) && is_core_stack title))
      (str (text "detail") r) title (str (text "id") r)

abbrev pub company_of : CampaignEvent → Text
company_of e = str (text "companyKey") e.record_of

abbrev pub is_submitted : CampaignEvent → Bool
is_submitted e = e.action == text "submitted"

-- the loop over the events, with the map `submittedByCompany`
unfoldable pub classify_events : List CampaignEvent → Map Text ℕ → List DecisionClassification
classify_events [] counts = []
classify_events (e ∷ es) counts = elim (is_submitted e) [
  | true ↦
      let prev = or_else (get (company_of e) counts) 0 in
      classify_submission prev (company_of e) e.record_of
      ∷ classify_events es (set (company_of e) (prev + 1) counts)
  | false ↦
      (if e.action == text "skippedFilter" then classify_skip e.record_of else [])
      ++ classify_events es counts
]

abbrev idle_text : ℕ → Text
idle_text ms = decimal ((ms + 30000) / 60000)

-- `idleMinutes >= STALE_THRESHOLD_MINUTES`
abbrev pub is_idle : ℕ → Option ℕ → Option ℕ → Bool
is_idle threshold (some now) (some last) = leb (last + threshold * 60000) now
is_idle threshold _ _ = false

abbrev ms_between : Option ℕ → Option ℕ → ℕ
ms_between (some now) (some last) = now - last
ms_between _ _ = 0

abbrev pub stale_of : ℕ → DecisionClassification
stale_of ms = record {
  event_id = none;
  kind = stale_campaign;
  severity = warn;
  reason = text "No new events for " ++ (idle_text ms ++ text " min. Campaign agent may be stuck.");
  evidence = some (idle_text ms ++ text "m idle");
}

abbrev pub is_empty : List CampaignEvent → Bool
is_empty [] = true
is_empty (e ∷ es) = false

module _ (millis : Text → Option ℕ) (threshold : ℕ) where
  abbrev pub staleness : Bool → List CampaignEvent → (now last : Text) → List DecisionClassification
  staleness complete events now last =
      if (not complete && is_empty events)
        && (is_set last && is_idle threshold (millis now) (millis last))
      then stale_of (ms_between (millis now) (millis last)) ∷ []
      else []

  unfoldable pub classify :
      (complete : Bool) → List CampaignEvent → (now last : Text) → List DecisionClassification
  classify complete events now last =
      classify_events events [] ++ staleness complete events now last

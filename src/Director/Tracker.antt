-- ===== src/Director/Tracker.antt =====
-- A campaign's tracker: `countConfirmedSubmissions`, src/director/submitted-count.ts, and
-- `readTrackerSummary` and `isCampaignComplete`, src/director/observe.ts. The value of a number is a
-- parameter; the counters and texts of a tracker have the types that the source casts them to.
use msrouter.Prelude.{
  ℕ, ◌+◌, ◌-◌, Bool, true, false, ◌&&◌, ◌||◌, Option, none, some, List, [], ◌++◌, text_eq, leb, ltb,
  if◌then◌else◌, add, length, Text, text, is_set,
}
use msrouter.Json.{
  Json, null, bool, number, string, Items, nil, cons, prop, prop?, truthy, is_object, is_text,
  items?,
}

-- `String(v)` of a primitive, the empty text for any other value: `scalar`, and `str` of
-- src/director/classify.ts
abbrev pub scalar : Option Json → Text
scalar (some (string s)) = s
scalar (some (number t)) = t
scalar (some (bool true)) = text "true"
scalar (some (bool false)) = text "false"
scalar _ = []

abbrev pub is_primitive : Option Json → Bool
is_primitive (some (string s)) = true
is_primitive (some (number t)) = true
is_primitive (some (bool b)) = true
is_primitive _ = false

abbrev pub is_primitive_id : Option Json → Bool
is_primitive_id none = false
is_primitive_id (some v) = is_primitive (some v) && truthy v

unfoldable pub application_key : Json → Text
application_key a =
    let id = prop (text "id") a in
    if is_primitive_id id
    then scalar id
    else scalar (prop (text "source") a) ++ (text ":" ++ scalar (prop (text "sourceJobId") a))

-- a row that is an object with a status
abbrev pub has_status : Text → Json → Bool
has_status s a = is_object a && is_text s (prop (text "status") a)

unfoldable pub submitted_keys : Items → List Text → List Text
unfolding application_key
submitted_keys nil seen = seen
submitted_keys (cons a rows) seen =
    submitted_keys rows
      (if has_status (text "submitted") a then add (application_key a) seen else seen)

abbrev counted : Option Items → Option ℕ
unfolding submitted_keys
counted none = none
counted (some rows) = some (length (submitted_keys rows []))

unfoldable pub count_confirmed_submissions : Json → Option ℕ
unfolding submitted_keys
count_confirmed_submissions t = counted (items? (prop (text "applications") t))

abbrev pub count_status : Text → Items → ℕ
count_status s nil = 0
count_status s (cons a rows) = (if has_status s a then 1 else 0) + count_status s rows

-- A difference of two counters, `negsuc n` for `- (n + 1)`.
pub data ℤ : Type 0 where
  pos negsuc : ℕ → ℤ

abbrev pub minus : ℕ → ℕ → ℤ
minus a b = if leb b a then pos (a - b) else negsuc (b - a - 1)

pub record LastApplied : Type 0 where
  pub source : Text
  pub company : Text
  pub role_title : Text
  pub at : Text

pub record TrackerSummary : Type 0 where
  pub submitted : ℕ
  pub stats_submitted : ℕ
  pub drift : ℤ
  pub complete : Bool
  pub attempted : ℕ
  pub target : ℕ
  pub last_applied : Option LastApplied
  pub updated_at : Text

-- `v ?? other`
abbrev pub or_else {ℓ} : {A : Type ℓ} → Option A → A → A
or_else none other = other
or_else (some a) other = a

abbrev text_or_empty : Option Json → Text
text_or_empty (some (string s)) = s
text_or_empty _ = []

abbrev items_of : Option Items → Items
items_of none = nil
items_of (some rows) = rows

abbrev last_applied_of : Option Json → Text → Option LastApplied
last_applied_of v at =
    let company = text_or_empty (prop? (text "company") v) in
    if is_set company
    then some (record {
      source = text_or_empty (prop? (text "source") v);
      company = company;
      role_title = text_or_empty (prop? (text "roleTitle") v);
      at = at;
    })
    else none

module _ (value : Text → ℕ) where
  abbrev pub counter? : Option Json → Option ℕ
  counter? (some (number t)) = some (value t)
  counter? _ = none

  unfoldable pub summary : Json → TrackerSummary
  unfolding count_confirmed_submissions
  summary t =
      let stats_submitted =
        or_else (counter? (prop? (text "submitted") (prop (text "stats") t)))
          (or_else (counter? (prop (text "submittedCount") t)) 0) in
      let submitted = or_else (count_confirmed_submissions t) stats_submitted in
      let target =
        or_else (counter? (prop (text "targetApplications") t))
          (or_else (counter? (prop (text "target") t)) 0) in
      record {
        submitted = submitted;
        stats_submitted = stats_submitted;
        drift = minus stats_submitted submitted;
        complete = ltb 0 target && (leb target stats_submitted || leb target submitted);
        attempted =
            count_status (text "attempted") (items_of (items? (prop (text "applications") t)));
        target = target;
        last_applied =
            last_applied_of (prop (text "lastApplied") t)
              (text_or_empty (prop (text "updatedAt") t));
        updated_at = text_or_empty (prop (text "updatedAt") t);
      }

  -- of what `JSON.parse` makes of the file, `none` if there is no file or it is no JSON; `none` is
  -- what is thrown then, and on reading a property of null
  unfoldable pub read_tracker_summary : Option Json → Option TrackerSummary
  unfolding summary
  read_tracker_summary none = none
  read_tracker_summary (some null) = none
  read_tracker_summary (some t) = some (summary t)

  abbrev is_complete : Option TrackerSummary → Bool
  is_complete none = false
  is_complete (some s) = s.complete

  unfoldable pub is_campaign_complete : Option Json → Bool
  unfolding read_tracker_summary
  is_campaign_complete file = is_complete (read_tracker_summary file)

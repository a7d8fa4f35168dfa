-- ===== src/Provider/Status.antt =====
-- How an upstream status is read: `classifyAttempt` of src/providers/types.ts and the status sets of
-- src/common/retry.ts.
use msrouter.Prelude.{
  ℕ, ◌≤◌, ◌<◌, ◌≡◌, ◌↔◌, Bool, true, false, ◌&&◌, ◌||◌, Option, none, some, [], ◌∷◌, arith, ◌==◌,
  nat_eq, ltb, leb, if◌then◌else◌, contains, Text,
}

pub data Kind : Type 0 where
  key_failure transient bad_request : Kind

pub record AttemptOutcome : Type 0 where
  pub kind : Kind
  pub status : ℕ
  pub message : Text

-- `resolved_model` is `none` where the field is absent.
pub data CallResult (R : Type 0) : Type 0 where
  answer : (response : R) (resolved_model : Option Text) → CallResult R
  failed : AttemptOutcome → CallResult R

abbrev pub outcome : Kind → ℕ → Text → Option AttemptOutcome
outcome k status message = some (record { kind = k; status = status; message = message })

unfoldable pub classify_attempt : ℕ → Text → Option AttemptOutcome
classify_attempt status message =
    if status == 401 || status == 402 || status == 403 || status == 429
    then outcome key_failure status message
    else if status == 408
        || status == 425
        || status == 500
        || status == 502
        || status == 503
        || status == 504
    then outcome transient status message
    else if leb 400 status && ltb status 500
    then outcome bad_request status message
    else if ltb status 200 || leb 300 status
    then outcome transient status message
    else none

unfoldable pub is_transient_status : ℕ → Bool
is_transient_status s = contains s (408 ∷ 425 ∷ 500 ∷ 502 ∷ 503 ∷ 504 ∷ [])

unfoldable pub is_key_failure_status : ℕ → Bool
is_key_failure_status s = contains s (401 ∷ 402 ∷ 403 ∷ 429 ∷ [])

unfoldable pub is_bad_request_status : ℕ → Bool
is_bad_request_status s = contains s (400 ∷ 404 ∷ 405 ∷ 422 ∷ [])

-- Every status is classified once, the outcome carries the status and the message unchanged, and
-- the kind agrees with the sets: no outcome exactly on 2xx; a key failure exactly on the
-- key-failure set; a bad request exactly on the other 4xx outside the transient set; and every
-- status of the bad-request set is a bad request.
pub classify_attempt_lem :
    (s : ℕ) (m : Text)
    → ((classify_attempt s m ≡ none) ↔ ((200 ≤ s) × (s < 300)))
      × ((classify_attempt s m ≡ outcome key_failure s m) ↔ (is_key_failure_status s ≡ true))
      × ((classify_attempt s m ≡ outcome bad_request s m) ↔ (
          (400 ≤ s)
          × (s < 500)
          × (is_key_failure_status s ≡ false)
          × (is_transient_status s ≡ false)))
      × (is_bad_request_status s ≡ true → classify_attempt s m ≡ outcome bad_request s m)
      × (is_transient_status s ≡ true → classify_attempt s m ≡ outcome transient s m)
unfolding classify_attempt is_key_failure_status is_transient_status is_bad_request_status
classify_attempt_lem s m =
    (ground arith, ground arith, ground arith, λ h. ground arith, λ h. ground arith)

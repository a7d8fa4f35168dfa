-- ===== src/Failure.antt =====
-- Failure propagation, src/providers/failure-axes.ts. Entries are objects compared by reference: the
-- queue holds references, which are numbers, and `entry_of` reads the entry that one stands for.
-- The clock is read once for each call, `now`.
pub mod Axes
pub mod Effects
mod Examples
use msrouter.Prelude.{
  ℕ, zero, ◌*◌, Bool, true, false, not, ◌&&◌, ◌||◌, Option, none, some, List, [], ◌∷◌, ◌++◌, ◌==◌,
  nat_eq, text_eq, ltb, if◌then◌else◌, length, keep, contains, Text,
}
use msrouter.Provider.{RoutingEntry}
use msrouter.Provider.Ids.{ProviderId, openrouter, provider_eq}
use msrouter.Provider.Status.{Kind, key_failure, transient, bad_request, AttemptOutcome}
use msrouter.Rotation.{RotationQueue, is_parked, snapshot, demote, park}

-- the walk's clock: `walk` of `behavior`
pub record Walk : Type 0 where
  pub started_at : ℕ
  pub deadline_ms : ℕ

pub record Behavior : Type 0 where
  pub demote_on_key_failure : Bool
  pub walk : Option Walk

unfoldable pub is_walk : Behavior → Bool
is_walk b = elim b.walk [ none ↦ false | some _ ↦ true ]

-- `ENTRY_LEVEL_FAILURE.has`
abbrev pub is_entry_level : ProviderId → Bool
is_entry_level p = p == openrouter

-- `action`
pub data Action : Type 0 where
  demote_only : Action
  demote_and_park : (park_ms : ℕ) → Action

pub record Skipper : Type 0 where
  pub pre_parked : List ℕ
  pub skipped : List ℕ

unfoldable pub should_skip : ℕ → Skipper → Bool
should_skip ref k = contains ref k.skipped

-- 24 * 60 * 60 * 1000
abbrev pub model_disabled_cooldown_ms : ℕ
model_disabled_cooldown_ms = 86400000

-- `for (const e of xs) if (test(e)) f(e)`
unfoldable pub for_each_if :
    (ℕ → Bool)
    → (ℕ → RotationQueue ℕ → RotationQueue ℕ)
    → List ℕ
    → RotationQueue ℕ
    → RotationQueue ℕ
for_each_if test f [] q = q
for_each_if test f (e ∷ es) q = for_each_if test f es (if test e then f e q else q)

unfoldable pub act : ℕ → Action → ℕ → RotationQueue ℕ → RotationQueue ℕ
act now demote_only e q = demote e q
act now (demote_and_park ms) e q = park now e ms (demote e q)

module _ (entry_of : ℕ → RoutingEntry) where
  -- the members of an axis
  abbrev pub same_provider : RoutingEntry → ℕ → Bool
  same_provider x e = (entry_of e).provider == x.provider

  abbrev pub same_model : RoutingEntry → ℕ → Bool
  same_model x e = (entry_of e).provider == x.provider && (entry_of e).model == x.model

  -- `new MidWalkParkSkipper(queue, entries)`
  unfoldable pub new_skipper : ℕ → List ℕ → RotationQueue ℕ → Skipper
  new_skipper now entries q = record {
    pre_parked = keep (λ e. is_parked now e q) entries;
    skipped = [];
  }

  unfoldable pub on_attempt_failed : ℕ → ℕ → Skipper → RotationQueue ℕ → Skipper
  on_attempt_failed now ref k q =
      if contains ref k.pre_parked || not (is_parked now ref q)
      then k
      else if is_entry_level (entry_of ref).provider
      then k
      else record k {
        skipped =
            keep (λ e. same_provider (entry_of ref) e && not (contains e k.pre_parked)) (snapshot q)
            ++ k.skipped;
      }

  unfoldable pub propagate_provider_axis :
      ℕ → ℕ → RoutingEntry → Action → RotationQueue ℕ → RotationQueue ℕ
  unfolding act for_each_if snapshot
  propagate_provider_axis now ref x action q =
      if is_entry_level x.provider
      then act now action ref q
      else for_each_if (same_provider x) (act now action) (snapshot q) q

  unfoldable pub demote_model_axis : RoutingEntry → RotationQueue ℕ → RotationQueue ℕ
  unfolding for_each_if snapshot
  demote_model_axis x q = for_each_if (same_model x) demote (snapshot q) q

  unfoldable pub disable_model_axis : ℕ → RoutingEntry → RotationQueue ℕ → RotationQueue ℕ
  unfolding for_each_if snapshot
  disable_model_axis now x q =
      for_each_if (same_model x) (λ e. park now e model_disabled_cooldown_ms) (snapshot q) q

  unfoldable pub provider_axis_size : RoutingEntry → RotationQueue ℕ → ℕ
  unfolding snapshot
  provider_axis_size x q =
      if is_entry_level x.provider then 1 else length (keep (same_provider x) (snapshot q))

  module _ (rate_limit_cooldown_ms now : ℕ) (ref : ℕ) (x : RoutingEntry) (behavior : Behavior)
      (dispatched_model : Text) where
    -- What each kind of failure does; the kinds exclude one another. The number is `demoted`.
    unfoldable pub failure_axes : Kind → ℕ → RotationQueue ℕ → ℕ × RotationQueue ℕ
    unfolding propagate_provider_axis demote_model_axis disable_model_axis provider_axis_size
    failure_axes key_failure status q =
        if behavior.demote_on_key_failure
        then (
          provider_axis_size x q,
          propagate_provider_axis now ref x
              (if status == 429 && ltb 0 rate_limit_cooldown_ms
                then demote_and_park rate_limit_cooldown_ms
                else demote_only)
              q,
        )
        else (0, q)
    failure_axes transient status q = if is_walk behavior then (1, demote ref q) else (0, q)
    failure_axes bad_request status q =
        if is_walk behavior && dispatched_model == x.model
        then (1, if status == 404 then disable_model_axis now x q else demote_model_axis x q)
        else (0, q)

    unfoldable pub apply_failure_axes : AttemptOutcome → RotationQueue ℕ → ℕ × RotationQueue ℕ
    unfolding failure_axes
    apply_failure_axes res q = failure_axes res.kind res.status q

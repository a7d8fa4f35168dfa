-- ===== src/Provider.antt =====
-- What a provider answers and how the chain reads it: src/providers/types.ts, src/common/retry.ts
-- and the identifiers and entries of src/providers/chain-routing.ts. A provider's `Response` is a
-- parameter.
pub mod Ids
pub mod Status
use msrouter.Prelude.{ℕ, Text}
use Ids.{ProviderId}

-- One entry of the flat rotation queue.
pub record RoutingEntry : Type 0 where
  pub provider : ProviderId
  pub label : Text
  pub model : Text
  pub attempt_index : ℕ

-- ===== src/Gateway/Examples.antt =====
-- Tests of the idempotency cache, src/gateway/idempotency.ts: bodies are numbers.
use msrouter.Prelude.{ℕ, ◌≢◌, Option, none, [], ◌∷◌, text}
use msrouter.Gateway.Idempotency.{IdemHandle, Cache, value}

abbrev one_cached : Cache ℕ
one_cached = (text "a", value 200 7 50) ∷ []

abbrev handle_b : IdemHandle
handle_b = record { key = text "b"; promise_id = 1 }

abbrev none_settled : ℕ → Option (ℕ × ℕ)
none_settled p = none

b-key : text "b" ≢ []
b-key e = cc

-- ===== src/Endpoint/Examples.antt =====
-- Tests of the providers' attempts: src/providers/openrouter.ts, src/providers/lmstudio.ts. Every chat
-- call is refused with 401, and LM Studio lists no models on its own.
use msrouter.Prelude.{
  ℕ, ◌≡◌, refl, true, none, some, [], ◌∷◌, Perm, arith, text_eq, get_elem?, Text, text,
}
use mathlib.Core.List.Perm
use msrouter.Provider.Status.{CallResult, classify_attempt}
use msrouter.Rotation.{RotationQueue, item_at}
use msrouter.Json.{end}
use msrouter.Fetch.Post.{replied, Response, Platform, post_chat_completion}
use msrouter.Endpoint.Call.{Network, post, with_model}
use msrouter.Endpoint.Pool.{
  PoolConfig, is_key_failure, pool_options, settle_key, pool_attempt, pool_attempt-perm,
}
use msrouter.Endpoint.Keys.{pool_always_calls, key_failure_skips}
use msrouter.Endpoint.Studio.{LmStudioConfig, Discovery}

abbrev platform : Platform
platform = record {
  parse = λ s. none;
  stringify = λ j. text "json";
  truncated_value = λ j. none;
  null_body_error = text "null body";
}

abbrev refusing : Network
refusing = record {
  World = ℕ;
  now = λ w. w;
  post_fetch = λ o w.
      (replied (record { status = 401; headers = []; content = text "no"; stream = none }), w);
  get_json = λ url w. (none, w);
  platform = platform;
}

abbrev two_keys : PoolConfig
two_keys = record { keys = text "k" ∷ text "l" ∷ []; timeout_ms = 9; referer = []; title = [] }

abbrev two_queue : RotationQueue ℕ
two_queue = record { order = 0 ∷ 1 ∷ []; parked_until = λ i. none }

pool_always_calls_example :
    (raw : ℕ) × (key : Text) × (get_elem? two_keys.keys raw ≡ some key)
    × (pool_attempt refusing two_keys end (text "m") (some 3) two_queue 0 ≡ (
        let r = post refusing (with_model (text "m") end) (pool_options two_keys key) 0 in
        (r.0, settle_key raw r.0 two_queue, r.1)))
pool_always_calls_example =
    pool_always_calls refusing two_keys end (text "m") (some 3) two_queue 0 Perm.rfl
      (refl, (refl, tt)) (omega arith)

pool_attempt-perm_example :
    Perm
      (pool_attempt refusing two_keys end (text "m") (some 0) two_queue 0).1.order
      two_queue.order
pool_attempt-perm_example = pool_attempt-perm refusing two_keys end (text "m") (some 0) two_queue 0

refused-k :
    is_key_failure
      (post refusing (with_model (text "m") end) (pool_options two_keys (text "k")) 0).0
    ≡ true
unfolding post post_chat_completion classify_attempt
refused-k = refl

abbrev failed_once : CallResult Response × RotationQueue ℕ × ℕ
failed_once = pool_attempt refusing two_keys end (text "m") (some 0) two_queue 0

key_failure_skips_example :
    (item_at 1 two_queue ≡ some 1)
    × ((pool_attempt refusing two_keys end (text "m") (some 1) failed_once.1 failed_once.2).0
        ≡ (post refusing
            (with_model (text "m") end)
            (pool_options two_keys (text "k"))
            failed_once.2).0)
key_failure_skips_example =
    key_failure_skips refusing two_keys end (text "m") two_queue 0 [] [] 0 1 0 (text "k") (text "k")
      refl refl refl refl refused-k refl refl refl

abbrev studio : LmStudioConfig
studio = record { base_url = text "u"; timeout_ms = 9 }

abbrev known : Discovery
known = record { ids = text "/m/Qwen3-4B-Q4_K_M.gguf" ∷ text "b" ∷ []; at = 5 }

-- ===== src/Gateway/Submits.antt =====
-- What a request to the gateway leaves for the next one with its key: `handleChat`,
-- src/gateway/handlers.ts.
use msrouter.Prelude.{
  ◌+◌, ◌≤◌, ◌<◌, ◌≡◌, refl, ap, ◌∙◌, true, false, none, some, [], ◌∷◌, arith, text_eq, text_beq_iff,
  length, get, get-delete, delete, ℕ, Text, is_set,
}
use msrouter.Config.{Env}
use msrouter.Errors.{Thrown}
use msrouter.Json.{Json}
use msrouter.Gateway.Idempotency.{
  Cache, idempotency_hit, answer_of, begin_idem, store_idem_result, drop_idem, store-hit,
  idem_max_entries, idem_ttl_ms,
}
use msrouter.Gateway.Chat.{
  ChatBody, ChatRequest, Answer, answered, failed, json, Platform, GatewayState, check_gateway_auth,
  parse_upstream_json, key_of, with_resolved, chat_body, deliver, run_fresh, handle_chat,
}

module _ (u : Platform) (env : Env) where
  open u use {World, now, safe_parse, settled, meanwhile, chain_handle, new_promise}

  -- the cache while the chain runs, once the request has begun
  abbrev pub underway : Text → GatewayState u env → World → Cache Json
  underway key s w =
      meanwhile w (begin_idem (now s.world) key false (new_promise s.world) s.cache).1

  -- what a request that is answered by the chain under a key is told, and what it stores
  run_fresh-answered :
      (req : ChatRequest) (key : Text) (body : ChatBody) (s : GatewayState u env) (a : Answer)
      (w : World)
      → is_set key ≡ true
      → body.stream ≡ false
      → chain_handle body s.world ≡ (answered a, w)
      → ((run_fresh u env req key body s).0
          ≡ json a.status (some (a.provider, a.model)) (parse_upstream_json u env a.content))
        × ((run_fresh u env req key body s).1.cache
            ≡ store_idem_result
                (now w)
                (record { key = key; promise_id = new_promise s.world })
                a.status
                (parse_upstream_json u env a.content)
                (underway key s w))
  unfolding run_fresh deliver begin_idem
  run_fresh-answered req [] body s a w some_key plain ran = cc
  run_fresh-answered req (c ∷ cs) body s a w some_key plain ran =
      (rw (ran, plain) refl, rw (ran, plain) refl)

  handle_chat-valid :
      (req : ChatRequest) (body : ChatBody) (s : GatewayState u env)
      → check_gateway_auth u env req ≡ some true
      → safe_parse req.body ≡ some body
      → handle_chat u env req s
        ≡ chat_body u env req (key_of u env req) (with_resolved u env body) s
  unfolding handle_chat
  handle_chat-valid req body s auth fine = rw (auth, fine) refl

  chat_body-hit :
      (req : ChatRequest) (key : Text) (body : ChatBody) (s : GatewayState u env) (status : ℕ)
      (stored : Json)
      → is_set key ≡ true
      → body.stream ≡ false
      → idempotency_hit (settled s.world) (now s.world) key s.cache ≡ some (status, stored)
      → chat_body u env req key body s ≡ (json status none stored, s)
  unfolding chat_body
  chat_body-hit req key body s status stored some_key plain hit = rw (some_key, plain, hit) refl

  chat_body-miss :
      (req : ChatRequest) (key : Text) (body : ChatBody) (s : GatewayState u env)
      → is_set key ≡ true
      → body.stream ≡ false
      → idempotency_hit (settled s.world) (now s.world) key s.cache ≡ none
      → chat_body u env req key body s ≡ run_fresh u env req key body s
  unfolding chat_body
  chat_body-miss req key body s some_key plain miss = rw (some_key, plain, miss) refl

  -- A valid request that the chain answers under a key, that is no stream and finds nothing stored
  -- under its key, gets the answer's status and parsed body, and leaves both for a double submit. If
  -- the cache stayed within its bound while the chain ran, and nothing changed it since, then for a
  -- minute a valid request with that key that is no stream gets the same status and body, the chain is
  -- not asked, and nothing changes.
  pub handle_chat-twice :
      (req again : ChatRequest) (body body' : ChatBody) (s : GatewayState u env) (a : Answer)
      (w v : World)
      → check_gateway_auth u env req ≡ some true
      → safe_parse req.body ≡ some body
      → body.stream ≡ false
      → is_set (key_of u env req) ≡ true
      → idempotency_hit (settled s.world) (now s.world) (key_of u env req) s.cache ≡ none
      → chain_handle (with_resolved u env body) s.world ≡ (answered a, w)
      → length (underway (key_of u env req) s w) ≤ idem_max_entries
      → check_gateway_auth u env again ≡ some true
      → safe_parse again.body ≡ some body'
      → body'.stream ≡ false
      → key_of u env again ≡ key_of u env req
      → now v < now w + idem_ttl_ms
      → let first = handle_chat u env req s in
        let t : GatewayState u env = record { cache = first.1.cache; world = v } in
        (first.0 ≡ json a.status (some (a.provider, a.model)) (parse_upstream_json u env a.content))
        × (handle_chat u env again t
            ≡ (json a.status none (parse_upstream_json u env a.content), t))
  handle_chat-twice req again body body' s a w v auth fine plain some_key fresh ran bound auth'
        fine' plain' same soon =
      let key = key_of u env req in
      let body = with_resolved u env body in
      let (told, stored) = run_fresh-answered req key body s a w some_key plain ran in
      let ran_fresh =
        handle_chat-valid req _ s auth fine ∙ chat_body-miss req key body s some_key plain fresh in
      let t : GatewayState u env = record {
        cache = (handle_chat u env req s).1.cache;
        world = v;
      } in
      let hit =
        ap (idempotency_hit (settled v) (now v) key) (ap (λ x. x.1.cache) ran_fresh ∙ stored)
        ∙ store-hit (settled v) (now w) (now v)
            (record { key = key; promise_id = new_promise s.world }) a.status
            (parse_upstream_json u env a.content) (underway key s w) bound soon in
      (
        ap (λ x. x.0) ran_fresh ∙ told,
        handle_chat-valid again body' t auth' fine'
            ∙ ap (λ k. chat_body u env again k (with_resolved u env body') t) same
            ∙ chat_body-hit again key (with_resolved u env body') t a.status _ some_key plain' hit,
      )

  failed-dropped :
      (req : ChatRequest) (key : Text) (body : ChatBody) (s : GatewayState u env) (e : Thrown)
      (w : World)
      → is_set key ≡ true
      → body.stream ≡ true
      → chain_handle body s.world ≡ (failed e, w)
      → (chat_body u env req key body s).1.cache ≡ delete key (meanwhile w s.cache)
  unfolding chat_body run_fresh deliver begin_idem drop_idem
  failed-dropped req [] body s e w some_key streams ran = cc
  failed-dropped req (c ∷ cs) body s e w some_key streams ran = rw (ran, streams) refl

  none-missed :
      (v : World) (key : Text) (m : Cache Json)
      → get key m ≡ none
      → idempotency_hit (settled v) (now v) key m ≡ none
  unfolding idempotency_hit answer_of
  none-missed v key m h = rw h refl

  -- Where a key holds a stored answer, a request with it that is no stream is answered with it. A stream
  -- with that key that fails takes from the cache, beside what other requests did, that one entry,
  -- so that the next request with it that is no stream runs again: the stored answer is lost.
  pub failed_stream_drops :
      (req again : ChatRequest) (key : Text) (body kept : ChatBody) (s : GatewayState u env)
      (e : Thrown) (w : World) (status : ℕ) (stored : Json)
      → is_set key ≡ true
      → body.stream ≡ true
      → kept.stream ≡ false
      → idempotency_hit (settled s.world) (now s.world) key s.cache ≡ some (status, stored)
      → chain_handle body s.world ≡ (failed e, w)
      → let t = (chat_body u env req key body s).1 in
        (chat_body u env again key kept s ≡ (json status none stored, s))
        × (t.cache ≡ delete key (meanwhile w s.cache))
        × (chat_body u env again key kept t ≡ run_fresh u env again key kept t)
  failed_stream_drops req again key body kept s e w status stored some_key streams plain hit ran =
      let dropped = failed-dropped req key body s e w some_key streams ran in
      let gone = get-delete key key (meanwhile w s.cache) ∙ ground (arith, text_beq_iff key key) in
      let t = (chat_body u env req key body s).1 in
      (
        chat_body-hit again key kept s status stored some_key plain hit,
        dropped,
        chat_body-miss again key kept t some_key plain
            (none-missed t.world key t.cache (ap (get key) dropped ∙ gone)),
      )

-- ===== src/Gateway/Chat.antt =====
-- POST /v1/chat/completions: `handleChat` and `checkGatewayAuth`, src/gateway/handlers.ts, over the
-- idempotency cache. The chain is a parameter here; so are the body's schema, `JSON.parse`, what an
-- awaited promise settles to, and the writing of a stream. Logging is left out.
use msrouter.Prelude.{
  ℕ, Bool, true, false, not, ◌&&◌, ◌||◌, Option, none, some, [], ◌++◌, ◌==◌, nat_eq, text_eq,
  length, if◌then◌else◌, take, trim, Text, text, is_set,
}
use msrouter.Config.{Env}
use msrouter.Errors.{Thrown, invalid, domain, to_error_body}
use msrouter.Json.{Json, string, object, Fields, end, field}
use msrouter.Routing.Models.{resolve_model}
use msrouter.Gateway.Idempotency.{
  IdemHandle, Cache, idempotency_hit, begin_idem, store_idem_result, drop_idem,
}

-- a body that the schema takes: what the gateway reads of it, and the whole
pub record ChatBody : Type 0 where
  pub model : Text
  pub stream : Bool
  pub rest : Fields

pub record ChatRequest : Type 0 where
  pub authorization : Option Text
  pub idempotency_key : Option Text
  pub body : Json
  pub id : Text

-- what the chain returns of an answer
pub record Answer : Type 0 where
  pub status : ℕ
  pub content : Text
  pub provider : Text
  pub model : Text

pub data Chained : Type 0 where
  answered : Answer → Chained
  failed : Thrown → Chained

-- what the client gets: a JSON reply with the headers that name the provider and the model, the piped
-- stream of an answer, the bare end of the connection, or what the server's `catch` makes of a handler
-- that throws
pub data ChatResponse : Type 0 where
  json : (status : ℕ) → (served_by : Option (Text × Text)) → (body : Json) → ChatResponse
  piped : Answer → ChatResponse
  closed : ChatResponse
  rejected : Thrown → ChatResponse

pub record Platform : Type 1 where
  pub World : Type 0
  pub now : World → ℕ
  -- the request's abort, which a client that leaves sets off
  pub aborted : World → Bool
  -- `chatCompletionSchema.safeParse`, with the details of what it refuses
  pub safe_parse : Json → Option ChatBody
  pub issues : Json → Fields
  pub parse : Text → Option Json
  -- `chain.handle`
  pub chain_handle : ChatBody → World → Chained × World
  -- what an awaited promise comes to, none where it is rejected
  pub settled : World → ℕ → Option (ℕ × Json)
  -- what the other requests do to the cache while the chain runs
  pub meanwhile : World → Cache Json → Cache Json
  pub new_promise : World → ℕ
  -- `timingSafeEqual` on the bytes of two texts, none where it throws, and the error that it throws:
  -- it is documented to do so where the numbers of bytes differ
  pub timing_safe_equal : Text → Text → Option Bool
  pub unequal_bytes : Thrown
  -- the name of an error is `AbortError`
  pub is_abort_error : Thrown → Bool

module _ (u : Platform) (env : Env) where
  open u use {
    is_abort_error, World, now, aborted, safe_parse, issues, parse, settled, meanwhile,
    chain_handle, new_promise, timing_safe_equal, unequal_bytes,
  }

  pub record GatewayState : Type 0 where
    pub cache : Cache Json
    pub world : World

  abbrev or_empty : Option Text → Text
  or_empty none = []
  or_empty (some s) = s

  abbrev always_false : Option Bool → Option Bool
  always_false none = none
  always_false (some _) = some false

  -- none where the comparison throws
  unfoldable pub constant_time_equal : Text → Text → Option Bool
  constant_time_equal a b =
      if length a == length b then timing_safe_equal a b else always_false (timing_safe_equal a b)

  unfoldable pub check_gateway_auth : ChatRequest → Option Bool
  unfolding constant_time_equal
  check_gateway_auth req =
      if is_set env.gateway_token
      then constant_time_equal (or_empty req.authorization) (text "Bearer " ++ env.gateway_token)
      else some true

  -- `parseUpstreamJson`
  abbrev or_raw : Text → Option Json → Json
  or_raw content none = object (
      field (text "error") (string (text "upstream returned non-JSON"))
        (field (text "raw") (string (take 500 content)) end))
  or_raw content (some v) = v

  unfoldable pub parse_upstream_json : Text → Json
  parse_upstream_json content = or_raw content (parse content)

  unfoldable pub send_error : ChatRequest → Thrown → ChatResponse
  unfolding to_error_body
  send_error req e = let (status, body) = to_error_body e req.id in json status none body

  abbrev store_if : Option IdemHandle → ℕ → Json → World → Cache Json → Cache Json
  store_if none status body w m = m
  store_if (some idem) status body w m = store_idem_result (now w) idem status body m

  -- the `try` and the `catch`
  unfoldable pub deliver :
      ChatRequest
      → Text
      → Bool
      → Option IdemHandle
      → Chained
      → GatewayState
      → ChatResponse × GatewayState
  unfolding parse_upstream_json send_error
  deliver req key true idem (answered a) s = (piped a, s)
  deliver req key false idem (answered a) s =
      let body = parse_upstream_json a.content in
      (
        json a.status (some (a.provider, a.model)) body,
        record s { cache = store_if idem a.status body s.world s.cache },
      )
  deliver req key stream idem (failed e) s = (
    if aborted s.world || is_abort_error e then closed else send_error req e,
    record s { cache = drop_idem key s.cache },
  )

  unfoldable pub run_fresh :
      ChatRequest → Text → ChatBody → GatewayState → ChatResponse × GatewayState
  unfolding deliver
  run_fresh req key body s =
      let begun = begin_idem (now s.world) key body.stream (new_promise s.world) s.cache in
      let (result, w) = chain_handle body s.world in
      deliver req key body.stream begun.0 result (record { cache = meanwhile w begun.1; world = w })

  abbrev pub key_of : ChatRequest → Text
  key_of req = trim (or_empty req.idempotency_key)

  abbrev pub with_resolved : ChatBody → ChatBody
  with_resolved body = record body { model = resolve_model env body.model }

  abbrev pub or_fresh :
      ChatRequest → Text → ChatBody → GatewayState → Option (ℕ × Json) → ChatResponse × GatewayState
  or_fresh req key body s none = run_fresh req key body s
  or_fresh req key body s (some (status, cached)) = (json status none cached, s)

  unfoldable pub chat_body :
      ChatRequest → Text → ChatBody → GatewayState → ChatResponse × GatewayState
  unfolding run_fresh
  chat_body req key body s =
      if is_set key && not body.stream
      then or_fresh req key body s (idempotency_hit (settled s.world) (now s.world) key s.cache)
      else run_fresh req key body s

  abbrev parsed : ChatRequest → Option ChatBody → GatewayState → ChatResponse × GatewayState
  parsed req none s =
      (send_error req (domain (invalid (text "invalid request body") (some (issues req.body)))), s)
  parsed req (some body) s = chat_body req (key_of req) (with_resolved body) s

  abbrev authorized : ChatRequest → Option Bool → GatewayState → ChatResponse × GatewayState
  authorized req none s = (rejected unequal_bytes, s)
  authorized req (some true) s = parsed req (safe_parse req.body) s
  authorized req (some false) s =
      (send_error req (domain (invalid (text "invalid gateway token") none)), s)

  unfoldable pub handle_chat : ChatRequest → GatewayState → ChatResponse × GatewayState
  unfolding chat_body check_gateway_auth send_error
  handle_chat req s = authorized req (check_gateway_auth req) s

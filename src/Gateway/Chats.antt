-- ===== src/Gateway/Chats.antt =====
-- Tests of the chat handler, src/gateway/handlers.ts: the chain answers all but streams.
use msrouter.Prelude.{
  ℕ, ◌≡◌, refl, true, false, none, some, [], ◌∷◌, arith, text_eq, nat_eq, ◌==◌, if◌then◌else◌,
  length, delete, text,
}
use msrouter.Config.{Env, default_env}
use msrouter.Errors.{other}
use msrouter.Json.{Json, null, end}
use msrouter.Gateway.Idempotency.{value, prune_idem, begin_idem, idempotency_hit, answer_of}
use msrouter.Gateway.Chat.{
  ChatBody, ChatRequest, Answer, answered, failed, json, Platform, GatewayState, check_gateway_auth,
  parse_upstream_json, chat_body, run_fresh, handle_chat,
}
use msrouter.Gateway.Submits.{handle_chat-twice, failed_stream_drops}

abbrev ask : ChatBody
ask = record { model = text "mst/free"; stream = false; rest = end }

abbrev stream : ChatBody
stream = record { model = text "mst/free"; stream = true; rest = end }

abbrev hello : Answer
hello = record { status = 200; content = text "hi"; provider = text "p"; model = text "m" }

abbrev platform : Platform
platform = record {
  World = ℕ;
  now = λ w. w;
  aborted = λ w. false;
  safe_parse = λ j. some ask;
  issues = λ j. end;
  parse = λ s. none;
  settled = λ w p. none;
  meanwhile = λ w m. m;
  chain_handle =
      λ b w. elim b.stream [ true ↦ (failed (other (text "e")), w) | false ↦ (answered hello, w) ];
  new_promise = λ w. w;
  is_abort_error = λ e. false;
  timing_safe_equal = λ a b. if length a == length b then some (a == b) else none;
  unequal_bytes = other (text "e");
}

abbrev keyed : ChatRequest
keyed = record {
  authorization = some (text "Bearer t");
  idempotency_key = some (text "k");
  body = null;
  id = text "r";
}

-- a gateway with a token
abbrev guarded : Env
guarded = record default_env { gateway_token = text "t" }

keyed-accepted : check_gateway_auth platform guarded keyed ≡ some true
unfolding check_gateway_auth
keyed-accepted = refl

abbrev start : GatewayState platform guarded
start = record { cache = []; world = 7 }

abbrev holding : GatewayState platform guarded
holding = record { cache = (text "k", value 200 null 90) ∷ []; world = 7 }

abbrev hello_body : Json
hello_body = parse_upstream_json platform guarded (text "hi")

abbrev later : GatewayState platform guarded
later = record { cache = (handle_chat platform guarded keyed start).1.cache; world = 20 }

handle_chat-twice_example :
    ((handle_chat platform guarded keyed start).0 ≡ json 200 (some (text "p", text "m")) hello_body)
    × (handle_chat platform guarded keyed later ≡ (json 200 none hello_body, later))
unfolding begin_idem prune_idem idempotency_hit
handle_chat-twice_example =
    handle_chat-twice platform guarded keyed keyed ask ask start hello 7 20 keyed-accepted refl refl
      refl refl refl (omega arith) keyed-accepted refl refl refl (omega arith)

abbrev dropped : GatewayState platform guarded
dropped = (chat_body platform guarded keyed (text "k") stream holding).1

failed_stream_drops_example :
    (chat_body platform guarded keyed (text "k") ask holding ≡ (json 200 none null, holding))
    × (dropped.cache ≡ delete (text "k") holding.cache)
    × (chat_body platform guarded keyed (text "k") ask dropped
        ≡ run_fresh platform guarded keyed (text "k") ask dropped)
unfolding idempotency_hit answer_of
failed_stream_drops_example =
    failed_stream_drops platform guarded keyed keyed (text "k") stream ask holding
      (other (text "e")) 7 200 null refl refl refl refl refl

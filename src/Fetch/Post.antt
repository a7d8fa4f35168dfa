-- ===== src/Fetch/Post.antt =====
-- What one POST to a provider comes to: `postChatCompletion`, src/providers/fetch.ts, from the moment
-- its transport has replied or thrown. Timers and the abort signal are the transport's.
use msrouter.Prelude.{
  ℕ, Bool, false, ◌||◌, Option, none, some, List, [], ◌++◌, ◌==◌, nat_eq, text_eq, leb,
  if◌then◌else◌, length, take, Text, text, is_set, Map, delete,
}
use msrouter.Provider.Status.{
  key_failure, transient, AttemptOutcome, CallResult, answer, failed, classify_attempt,
}
use msrouter.Routing.Entries.{decimal}
use msrouter.Json.{Json, string, prop, truthy}
use msrouter.Fetch.Completion.{is_empty_completion, unwrap_enveloped_data}
use msrouter.Fetch.Stream.{Stream, Checked, passed, refused, thrown, check_stream_content}

-- `content` is what `text()` yields, the empty text where it fails; `stream` is the body to be read
-- piece by piece.
pub record Reply : Type 0 where
  pub status : ℕ
  pub headers : Map Text Text
  pub content : Text
  pub stream : Option Stream

pub data Fetched : Type 0 where
  replied : Reply → Fetched
  threw : (first_byte_fired : Bool) (message : Text) → Fetched

pub data Body : Type 0 where
  text_body : Text → Body
  byte_body : List ℕ → Body

pub record Response : Type 0 where
  pub status : ℕ
  pub headers : Map Text Text
  pub body : Body

unfoldable pub truncate : Text → ℕ → Text
truncate s max = if leb (length s) max then s else take max s ++ text "..."

abbrev pub transient_outcome : ℕ → Text → CallResult Response
transient_outcome status message =
    failed (record { kind = transient; status = status; message = message })

-- the statuses among the successes for which `new Response` takes no body
abbrev pub is_null_body : ℕ → Bool
is_null_body status = status == 204 || status == 205

-- What lies outside: `JSON.parse`, `JSON.stringify`, what `truncate(v, 300)` writes into a text for a
-- `v` that is no string, none where it throws, and the message of `new Response` where it throws.
pub record Platform : Type 0 where
  pub parse : Text → Option Json
  pub stringify : Json → Text
  pub truncated_value : Json → Option Text
  pub null_body_error : Text

module _ (w : Platform) where
  open w use {parse, stringify, truncated_value, null_body_error}

  -- the outermost `catch`
  unfoldable pub caught : ℕ → Bool → Text → CallResult Response
  unfolding truncate
  caught first_byte_timeout_ms fired message =
      if fired
      then transient_outcome 0 (
          text "fetch error: no response headers within "
          ++ (decimal first_byte_timeout_ms ++ text "ms"))
      else transient_outcome 0 (text "fetch error: " ++ truncate message 200)

  -- `{ kind: 'OK', response: new Response(...) }`
  unfoldable pub respond : ℕ → Map Text Text → Body → CallResult Response
  unfolding caught
  respond status headers body =
      if is_null_body status
      then caught 0 false null_body_error
      else answer (record { status = status; headers = headers; body = body }) none

  -- the text of `json.error`, none where reading it throws
  unfoldable pub error_text : Json → Option Text
  unfolding truncate
  error_text (string s) = some (truncate s 300)
  error_text e = message (prop (text "message") e)
    where
      message : Option Json → Option Text
      message none = some (truncate (stringify e) 300)
      message (some (string m)) =
          if is_set m then some (truncate m 300) else some (truncate (stringify e) 300)
      message (some m) = if truthy m then truncated_value m else some (truncate (stringify e) 300)

  abbrev pub or_json : Json → Option Json → Json
  or_json json none = json
  or_json json (some data') = data'

  abbrev pub served_text : Text → Option Json → Text
  served_text content none = content
  served_text content (some data') = stringify data'

  abbrev pub served_headers : Map Text Text → Option Json → Map Text Text
  served_headers headers none = headers
  served_headers headers (some data') = delete (text "content-length") headers

  -- a parsed body without an error
  unfoldable pub serve_json : Reply → Json → Bool → CallResult Response
  unfolding respond
  serve_json r json unwrap =
      let data' = unwrap_enveloped_data json unwrap in
      if is_empty_completion (or_json json data')
      then transient_outcome r.status
          (text "upstream returned empty completion (model returned no content)")
      else respond r.status (served_headers r.headers data')
          (text_body (served_text r.content data'))

  -- the body as it came, which is what the inner `catch` serves
  abbrev pub serve_verbatim : Reply → CallResult Response
  serve_verbatim r = respond r.status r.headers (text_body r.content)

  abbrev pub or_verbatim : Reply → Option Text → CallResult Response
  or_verbatim r none = serve_verbatim r
  or_verbatim r (some message) =
      transient_outcome r.status (text "upstream returned 200 with error: " ++ message)

  abbrev pub error_or : Reply → Json → Bool → Option Json → CallResult Response
  error_or r json unwrap none = serve_json r json unwrap
  error_or r json unwrap (some e) =
      if truthy e then or_verbatim r (error_text e) else serve_json r json unwrap

  unfoldable pub post_text : Reply → Bool → CallResult Response
  unfolding serve_json error_text
  post_text r unwrap = elim (parse r.content) [
    | none ↦ serve_verbatim r
    | some json ↦ error_or r json unwrap (prop (text "error") json)
  ]

  abbrev pub after_check : Reply → ℕ → Checked → CallResult Response
  after_check r ms (passed body) = respond r.status r.headers (byte_body body)
  after_check r ms (refused reason) =
      failed (record { kind = key_failure; status = 200; message = reason })
  after_check r ms (thrown message) = caught ms false message

  abbrev pub with_detail : Text → AttemptOutcome → CallResult Response
  with_detail content o = failed (record o {
    message = o.message ++ (if is_set content then text ": " ++ truncate content 300 else []);
  })

  -- by whether the body asked for a stream, the deadline of the headers and `unwrapData`
  unfoldable pub post_chat_completion : Bool → ℕ → Bool → Fetched → CallResult Response
  unfolding post_text caught
  post_chat_completion stream ms unwrap (threw fired message) = caught ms fired message
  post_chat_completion stream ms unwrap (replied r) =
      elim (classify_attempt r.status (text "upstream " ++ decimal r.status)) [
        | some o ↦ with_detail r.content o
        | none ↦
            if stream
            then after_check r ms (check_stream_content parse r.stream)
            else post_text r unwrap
      ]

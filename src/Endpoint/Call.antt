-- ===== src/Endpoint/Call.antt =====
-- The request of `postChatCompletion`, src/providers/fetch.ts, and `joinUrl`. The network is the
-- parameter `Network`, whose `World` is passed through every call.
use msrouter.Prelude.{ℕ, Bool, Option, [], ◌∷◌, ◌++◌, ◌==◌, nat_eq, if◌then◌else◌, Text, text, Map}
use msrouter.Provider.Status.{CallResult}
use msrouter.Json.{Json, Fields, get_field, truthy?, set_field, string}
use msrouter.Fetch.Post.{Fetched, Response, Platform, post_chat_completion}

-- `UpstreamOptions`; a deadline of 0 for the headers is no deadline
pub record UpstreamOptions : Type 0 where
  pub base_url : Text
  pub authorization : Text
  pub extra_headers : Map Text Text
  pub timeout_ms : ℕ
  pub first_byte_timeout_ms : ℕ
  pub unwrap_data : Bool

-- what is sent
pub record Outgoing : Type 0 where
  pub url : Text
  pub headers : Map Text Text
  pub body : Fields
  pub timeout_ms : ℕ
  pub first_byte_timeout_ms : ℕ

pub record Network : Type 1 where
  pub World : Type 0
  -- `Date.now()`
  pub now : World → ℕ
  pub post_fetch : Outgoing → World → Fetched × World
  -- the body of `GET {url}` where the reply is a success and is JSON
  pub get_json : Text → World → Option Json × World
  pub platform : Platform

abbrev pub slash_end : ℕ → Text → Text
slash_end c [] = if c == b'/' then [] else c ∷ []
slash_end c (d ∷ s) = c ∷ d ∷ s

-- `base.replace(/\/+$/, '')`
abbrev pub strip_slashes : Text → Text
strip_slashes [] = []
strip_slashes (c ∷ s) = slash_end c (strip_slashes s)

unfoldable pub join_url : Text → Text → Text
join_url base suffix = strip_slashes base ++ (text "/" ++ suffix)

abbrev pub wants_stream : Fields → Bool
wants_stream body = truthy? (get_field (text "stream") body)

unfoldable pub outgoing : Fields → UpstreamOptions → Outgoing
unfolding join_url
outgoing body o = record {
  url = join_url o.base_url (text "chat/completions");
  headers =
      (text "content-type", text "application/json")
      ∷ (text "authorization", o.authorization)
      ∷ (
        text "accept",
        if wants_stream body then text "text/event-stream" else text "application/json",
      )
      ∷ o.extra_headers;
  body = body;
  timeout_ms = o.timeout_ms;
  first_byte_timeout_ms = o.first_byte_timeout_ms;
}

module _ (u : Network) where
  open u use {World, post_fetch, platform}

  unfoldable pub post : Fields → UpstreamOptions → World → CallResult Response × World
  unfolding outgoing
  post body o w =
      let (fetched, w') = post_fetch (outgoing body o) w in
      (
        post_chat_completion platform (wants_stream body) o.first_byte_timeout_ms o.unwrap_data
            fetched,
        w',
      )

-- `{ ...body, model }`
abbrev pub with_model : Text → Fields → Fields
with_model model body = set_field (text "model") (string model) body

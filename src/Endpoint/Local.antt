-- ===== src/Endpoint/Local.antt =====
-- A local server without keys, behind a bound on the prompt: src/providers/local.ts.
use msrouter.Prelude.{
  ℕ, ◌+◌, ◌/◌, Bool, false, Option, none, some, [], ◌++◌, ltb, if◌then◌else◌, length, Text, text,
}
use msrouter.Provider.Status.{bad_request, CallResult, failed}
use msrouter.Routing.Entries.{decimal}
use msrouter.Json.{
  Json, string, array, Items, nil, cons, Fields, get_field, set_field, prop, is_object,
}
use msrouter.Fetch.Post.{Response}
use msrouter.Endpoint.Call.{Network, UpstreamOptions, post, with_model}

-- an absent `maxPromptTokens` is 128000
pub record LocalConfig : Type 0 where
  pub id : Text
  pub base_url : Text
  pub default_model : Text
  pub max_prompt_tokens : ℕ
  pub suppress_reasoning : Bool
  pub timeout_ms : ℕ
  pub first_byte_timeout_ms : ℕ

abbrev pub text_length : Option Json → ℕ
text_length (some (string s)) = length s
text_length _ = 0

-- the texts of a list of parts
abbrev pub parts_length : Items → ℕ
parts_length nil = 0
parts_length (cons part parts) = text_length (prop (text "text") part) + parts_length parts

abbrev pub content_length : Option Json → ℕ
content_length (some (string s)) = length s
content_length (some (array parts)) = parts_length parts
content_length _ = 0

abbrev pub messages_length : Items → ℕ
messages_length nil = 0
messages_length (cons m ms) =
    (if is_object m then content_length (prop (text "content") m) + 10 else 0) + messages_length ms

abbrev pub messages_of : Option Json → ℕ
messages_of (some (array ms)) = messages_length ms
messages_of _ = 0

module _ (u : Network) where
  open u use {World, platform}

  abbrev pub tools_length : Items → ℕ
  tools_length nil = 0
  tools_length (cons t ts) = length (platform.stringify t) + tools_length ts

  abbrev pub tools_of : Option Json → ℕ
  tools_of (some (array ts)) = tools_length ts
  tools_of _ = 0

  -- of `body.messages` and `body.tools`
  unfoldable pub estimate_prompt_tokens : Fields → ℕ
  estimate_prompt_tokens body =
      (messages_of (get_field (text "messages") body) + tools_of (get_field (text "tools") body))
      / 4

  abbrev pub or_none : Option Json → Fields → Fields
  or_none none body = set_field (text "reasoning_effort") (string (text "none")) body
  or_none (some v) body = body

  unfoldable pub local_body : LocalConfig → Fields → Text → Fields
  local_body c body model =
      let outbound = with_model model body in
      if c.suppress_reasoning
      then or_none (get_field (text "reasoning_effort") outbound) outbound
      else outbound

  unfoldable pub local_options : LocalConfig → UpstreamOptions
  local_options c = record {
    base_url = c.base_url;
    authorization = text "Bearer " ++ c.id;
    extra_headers = [];
    timeout_ms = c.timeout_ms;
    first_byte_timeout_ms = c.first_byte_timeout_ms;
    unwrap_data = false;
  }

  unfoldable pub local_attempt : LocalConfig → Fields → Text → World → CallResult Response × World
  unfolding estimate_prompt_tokens local_body local_options
  local_attempt c body model w =
      let prompt_tokens = estimate_prompt_tokens body in
      if ltb c.max_prompt_tokens prompt_tokens
      then (
        failed (record {
          kind = bad_request;
          status = 400;
          message =
              c.id
              ++ (text ": prompt ~"
                  ++ (decimal prompt_tokens
                      ++ (text " tokens exceeds model context window (max "
                          ++ (decimal c.max_prompt_tokens ++ text "); use a remote provider"))));
        }),
        w,
      )
      else post u (local_body c body model) (local_options c) w

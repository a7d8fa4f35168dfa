-- ===== src/Endpoint/Single.antt =====
-- A provider with one key: src/providers/single-key.ts.
use msrouter.Prelude.{ℕ, Bool, not, ◌++◌, if◌then◌else◌, Text, text, is_set, Map}
use msrouter.Provider.Status.{key_failure, CallResult, failed}
use msrouter.Json.{Fields}
use msrouter.Fetch.Post.{Response}
use msrouter.Endpoint.Call.{Network, UpstreamOptions, post, with_model}

-- an absent key is the empty text
pub record SingleKeyConfig : Type 0 where
  pub id : Text
  pub base_url : Text
  pub api_key : Text
  pub default_model : Text
  pub extra_headers : Map Text Text
  pub unwrap_data : Bool
  pub timeout_ms : ℕ

unfoldable pub single_options : SingleKeyConfig → UpstreamOptions
single_options c = record {
  base_url = c.base_url;
  authorization = text "Bearer " ++ c.api_key;
  extra_headers = c.extra_headers;
  timeout_ms = c.timeout_ms;
  first_byte_timeout_ms = 0;
  unwrap_data = c.unwrap_data;
}

module _ (u : Network) where
  open u use {World}

  unfoldable pub single_attempt :
      SingleKeyConfig → Fields → Text → World → CallResult Response × World
  unfolding post single_options
  single_attempt c body model w =
      if not (is_set c.api_key)
      then (
        failed (record {
          kind = key_failure;
          status = 0;
          message = c.id ++ text ": no api key configured";
        }),
        w,
      )
      else post u (with_model model body) (single_options c) w

-- ===== src/Config.antt =====
-- The parsed environment, src/config/env.ts and src/config/single-key-env.ts: the fields that the
-- gateway and its providers read, with the schema's defaults. An optional text that is unset is the
-- empty text, since the code only asks whether it is truthy. The validation itself is zod's.
use msrouter.Prelude.{ℕ, Bool, true, false, List, [], ◌∷◌, Text, text}

pub record SingleKeyEnv : Type 0 where
  pub openai_api_key : Text
  pub openai_base_url : Text
  pub openai_model : Text
  pub zai_api_key : Text
  pub zai_base_url : Text
  pub zai_model : Text
  pub zai_model_2 : Text
  pub tokenrouter_api_key : Text
  pub tokenrouter_base_url : Text
  pub tokenrouter_model : Text
  pub opencodego_api_key : Text
  pub opencodego_base_url : Text
  pub opencodego_model : Text
  pub opencodego_model_2 : Text
  pub opencodego_session_id : Text
  pub opencode_api_key : Text
  pub opencode_base_url : Text
  pub opencode_model : Text
  pub opencode_session_id : Text
  pub unorouter_api_key : Text
  pub unorouter_base_url : Text
  pub unorouter_model : Text
  pub unorouter_models : List Text
  pub groq_api_key : Text
  pub groq_base_url : Text
  pub groq_model : Text
  pub groq_models : List Text
  pub sambanova_api_key : Text
  pub sambanova_base_url : Text
  pub sambanova_model : Text
  pub sambanova_models : List Text
  pub mistral_api_key : Text
  pub mistral_base_url : Text
  pub mistral_model : Text
  pub mistral_models : List Text
  pub cloudflare_api_key : Text
  pub cloudflare_account_id : Text
  pub cloudflare_model : Text
  pub cloudflare_models : List Text
  pub cline_api_key : Text
  pub cline_base_url : Text
  pub cline_model : Text
  pub cline_models : List Text
  pub gemini_api_key : Text
  pub gemini_base_url : Text
  pub gemini_model : Text
  pub gemini_models : List Text

abbrev pub default_single_key_env : SingleKeyEnv
default_single_key_env = record {
  openai_api_key = [];
  openai_base_url = text "https://api.openai.com/v1";
  openai_model = text "gpt-4o-mini";
  zai_api_key = [];
  zai_base_url = text "https://api.z.ai/api/coding/paas/v4";
  zai_model = text "glm-5.3-flash";
  zai_model_2 = [];
  tokenrouter_api_key = [];
  tokenrouter_base_url = text "https://api.tokenrouter.com/v1";
  tokenrouter_model = text "z-ai/glm-5.3-free";
  opencodego_api_key = [];
  opencodego_base_url = text "https://opencode.ai/zen/go/v1";
  opencodego_model = text "glm-5.3-flash";
  opencodego_model_2 = [];
  opencodego_session_id = [];
  opencode_api_key = [];
  opencode_base_url = text "https://opencode.ai/zen/v1";
  opencode_model = text "space-bunny-free";
  opencode_session_id = [];
  unorouter_api_key = [];
  unorouter_base_url = text "https://api.unorouter.com/v1";
  unorouter_model = text "glm-5.3-flash:free";
  unorouter_models = [];
  groq_api_key = [];
  groq_base_url = text "https://api.groq.com/openai/v1";
  groq_model = text "openai/gpt-oss-120b";
  groq_models = [];
  sambanova_api_key = [];
  sambanova_base_url = text "https://api.sambanova.ai/v1";
  sambanova_model = [];
  sambanova_models = [];
  mistral_api_key = [];
  mistral_base_url = text "https://api.mistral.ai/v1";
  mistral_model = text "mistral-small-latest";
  mistral_models = [];
  cloudflare_api_key = [];
  cloudflare_account_id = [];
  cloudflare_model = text "@cf/meta/llama-3.3-70b-instruct-fp8-fast";
  cloudflare_models = [];
  cline_api_key = [];
  cline_base_url = text "https://api.cline.bot/api/v1";
  cline_model = text "poolside/laguna-s-2.1:free";
  cline_models = [];
  gemini_api_key = [];
  gemini_base_url = text "https://generativelanguage.googleapis.com/v1beta/openai";
  gemini_model = text "gemini-2.5-flash-lite";
  gemini_models = [];
}

pub data NodeEnv : Type 0 where
  development testing production : NodeEnv

pub record Env : Type 0 where
  pub node_env : NodeEnv
  pub port : ℕ
  pub gateway_token : Text
  pub single_key : SingleKeyEnv
  pub open single_key use *
  pub local_enabled : Bool
  pub local_base_url : Text
  pub local_model : Text
  pub local_timeout_ms : ℕ
  pub lmstudio_enabled : Bool
  pub lmstudio_base_url : Text
  pub lmstudio_model : Text
  pub lmstudio_timeout_ms : ℕ
  pub laptop_enabled : Bool
  pub laptop_base_url : Text
  pub laptop_model : Text
  pub laptop_timeout_ms : ℕ
  pub slack_bot_token : Text
  pub slack_channel : Text
  pub slack_webhook : Text
  pub openrouter_model : Text
  pub openrouter_models : List Text
  pub walk_alias : List Text
  pub force_free : Bool
  pub upstream_timeout_ms : ℕ
  pub max_transient_retries : ℕ
  pub transient_backoff_ms : ℕ
  pub rate_limit_cooldown_ms : ℕ
  pub walk_deadline_ms : ℕ
  pub first_byte_timeout_ms : ℕ
  pub success_demote_limit : ℕ

abbrev pub default_env : Env
default_env = record {
  node_env = development;
  port = 8787;
  gateway_token = [];
  single_key = default_single_key_env;
  local_enabled = false;
  local_base_url = text "http://127.0.0.1:11434/v1";
  local_model = text "qwen3.5:2b";
  local_timeout_ms = 300000;
  lmstudio_enabled = false;
  lmstudio_base_url = text "http://127.0.0.1:1235/v1";
  lmstudio_model = text "qwen3.5-4b";
  lmstudio_timeout_ms = 300000;
  laptop_enabled = false;
  laptop_base_url = text "https://mstro-travelmate-p215-52.taila0a683.ts.net/v1";
  laptop_model = text "qwen35-2b-64k";
  laptop_timeout_ms = 1800000;
  slack_bot_token = [];
  slack_channel = [];
  slack_webhook = [];
  openrouter_model = text "openrouter/free";
  openrouter_models = [];
  walk_alias = text "glm-4.7-flash" ∷ text "mst/free" ∷ text "free" ∷ [];
  force_free = true;
  upstream_timeout_ms = 60000;
  max_transient_retries = 2;
  transient_backoff_ms = 1000;
  rate_limit_cooldown_ms = 60000;
  walk_deadline_ms = 300000;
  first_byte_timeout_ms = 900000;
  success_demote_limit = 5;
}

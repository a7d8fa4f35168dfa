-- ===== src/Endpoint.antt =====
-- The provider objects, each of which makes one attempt: src/providers/openrouter.ts, single-key.ts,
-- local.ts and lmstudio.ts.
pub mod Call
pub mod Pool
pub mod Keys
pub mod Single
pub mod Local
pub mod Models
pub mod Studio
mod Examples

-- ===== src/Gateway.antt =====
-- The gateway's parts around the chain: src/gateway/idempotency.ts and the chat handler of
-- src/gateway/handlers.ts.
pub mod Idempotency
pub mod Chat
pub mod Submits
mod Examples
mod Chats

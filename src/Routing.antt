-- ===== src/Routing.antt =====
-- Which entries a walk tries and what a requested model means: src/providers/chain-routing.ts,
-- extras.ts, shortcircuit.ts, `withFree` of openrouter.ts, and src/gateway/model-list.ts.
pub mod Free
pub mod Extras
pub mod Entries
pub mod Order
pub mod Distinct
pub mod Pins
pub mod Models
pub mod Resolution
pub mod Known
mod Examples

-- ===== src/Fetch.antt =====
-- One upstream call and what its answer is taken for: src/providers/fetch.ts and
-- src/providers/stream-check.ts. The transport is a parameter.
pub mod Completion
pub mod Stream
pub mod Delivery
pub mod Delivering
pub mod Post
pub mod Served
mod Examples

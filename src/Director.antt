-- ===== src/Director.antt =====
-- The director: its ledger, src/director/ledger.ts, what it reads and counts of a campaign,
-- src/director/observe.ts and src/director/submitted-count.ts, how it classifies it,
-- src/director/classify.ts, its agent, src/director/agent-loop.ts, its Slack surface,
-- src/director/surface.ts and src/director/slack-poller.ts, the overrides that it writes,
-- src/director/apply.ts, and its ticks, src/director/loop.ts.
pub mod Ledger
pub mod Approved
pub mod Workflow
pub mod Tracker
pub mod Overrides
mod Confirmed
pub mod Lines
pub mod Entries
pub mod Written
pub mod Poller
pub mod Classify
pub mod Classified
pub mod Machine
pub mod Messages
pub mod Supervision
pub mod Phases
pub mod Proposals
pub mod Loop
pub mod Rules
pub mod Early
pub mod Late
pub mod Whole
pub mod Restarts
pub mod Stalls
pub mod Losses
pub mod Marked
pub mod Settled
pub mod Events
pub mod Outbox
pub mod Patches
pub mod Agent
pub mod Bounds
mod Examples
mod Runs
mod Ticks
mod Saved

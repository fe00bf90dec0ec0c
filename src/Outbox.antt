-- ===== src/Outbox.antt =====
-- cloud_outbox.py: the bounded handoff in memory and the durable spool behind it.
pub mod Spool
pub mod State
pub mod Handoff
pub mod Writer
pub mod Reporting
pub mod Retention
pub mod Summaries
pub mod Queued
pub mod Writing
pub mod Saving
pub mod Upload
pub mod Expiry
mod Tests

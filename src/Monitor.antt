-- ===== src/Monitor.antt =====
-- services/live_monitor_service.py: one monitoring session, its worker and its feed.
pub mod Session
pub mod Loop
pub mod Control
pub mod Status
pub mod Counts
pub mod Window
pub mod Sound
pub mod Interleaved
pub mod Polls
pub mod Batches
pub mod Endings
mod Tests

-- ===== src/Flow.antt =====
-- services/flow_tracker_service.py: packets are grouped into bidirectional flows, and a flow that
-- ends is emitted as an event with its features.
pub mod Packet
pub mod State
pub mod Features
pub mod Tracker
pub mod Feed
pub mod History
pub mod Numbers
mod Tests

-- ===== src/Capture.antt =====
-- services/traffic_source_service.py: the sources of flow events, a recorded capture and a live one.
pub mod Pcap
pub mod Replay
pub mod Prepared
pub mod Connections
pub mod Owned
pub mod Live
pub mod Calls
pub mod Fed
mod Tests

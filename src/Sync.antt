-- ===== src/Sync.antt =====
-- cloud_sync.py: the background upload of the spooled events.
pub mod Store
pub mod Upload
pub mod Rounds
pub mod Rows
pub mod Fates
pub mod Worker
pub mod Identities
mod Tests
pub mod Reports
pub mod Turns
pub mod Pass
pub mod Passes
pub mod Held
pub mod Others
pub mod Isolation
mod PassTests

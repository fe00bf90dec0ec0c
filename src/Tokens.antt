-- ===== src/Tokens.antt =====
-- token_verification.py: the access tokens of the cloud, checked against its published keys.
pub mod Keys
pub mod Verify
pub mod Accepted
pub mod Requests
mod Tests

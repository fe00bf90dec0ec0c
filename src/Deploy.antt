-- ===== src/Deploy.antt =====
-- services/deployment_service.py, with the deployment tables of services/database_service.py.
pub mod Tables
pub mod Artifact
pub mod Promotion
pub mod History
pub mod Atomic
pub mod Gate
mod Tests

-- ===== src/Provision.antt =====
-- internal/provision: the typed client of the jambonz REST API and the ephemeral test accounts.
pub mod Types
pub mod Tags
pub mod Api
pub mod Client
pub mod Resources
pub mod Reads
pub mod Sweeper
pub mod Suite
mod Examples

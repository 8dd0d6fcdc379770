-- ===== src/Flags.antt =====
-- app/flags: the features that are switched on for a tenant.
pub mod Schemas
pub mod Service
pub mod Resolution
mod Tests

-- ===== src/Session.antt =====
-- app/session: durable facts and short-lived conversation state.
pub mod Schemas
pub mod Caching
pub mod Updates
pub mod Service
pub mod Coherence
pub mod Reading
pub mod Clarifying
pub mod Keeping
mod Tests

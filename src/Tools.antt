-- ===== src/Tools.antt =====
-- app/tools: the registry of tools, the security policies, and the executor of plans.
pub mod Schemas
pub mod RateLimit
pub mod Policy
pub mod Registry
pub mod Executor
pub mod Clauses
pub mod Steps
pub mod Effects
pub mod Runs
pub mod Gates
pub mod Limits
pub mod Catalog
pub mod Planned
mod Tests

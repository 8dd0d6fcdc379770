-- ===== src/Orchestrator.antt =====
-- app/orchestrator: the control flow of one turn.
pub mod Replies
pub mod Turn
pub mod Actions
pub mod Control
pub mod Outcomes
pub mod Laws
pub mod Leaving
pub mod Traces
pub mod Turns
mod Tests

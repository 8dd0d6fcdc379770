-- ===== src/Llm.antt =====
-- app/llm: what is sent to a language model. The clients are calls of services and not modelled.
pub mod Context
pub mod Budget
pub mod Requests
mod Tests

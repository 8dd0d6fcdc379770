-- ===== src/Router.antt =====
-- app/router: which intent a message has.
pub mod Rules
pub mod Classifier
pub mod Laws
pub mod Facts
pub mod Grounding
mod Tests

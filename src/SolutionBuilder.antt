-- ===== src/SolutionBuilder.antt =====
-- app/solution_builder: the bill of materials and the wizard that collects its requirements.
pub mod Bom
pub mod Wizard
pub mod Quantities
pub mod Bills
pub mod Progress
mod Tests

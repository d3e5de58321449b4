-- ===== src/Rca.antt =====
-- rca_engine: hypotheses on the cause of an incident, from rules on evidence.
pub mod Common
pub mod Evidence
pub mod Sanitize
pub mod Rules
pub mod Hypothesis
pub mod Causality
pub mod Timeline
pub mod Engine
pub mod Intake
pub mod Fixture

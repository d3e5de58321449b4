-- ===== src/Tests.antt =====
-- Runs on concrete inputs, and the theorems applied to them.
mod VersionsTests
mod SchemasTests
mod EvidenceTests
mod ServerTests
mod CatalogTests
mod GatewayTests
mod FieldValidationTests
mod RcaTests
mod KnowledgeTests
mod SanitizeTests
mod IntakeTests
mod FixtureTests

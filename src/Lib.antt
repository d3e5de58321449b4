-- ===== src/Lib.antt =====
-- Oracle Diagnostic eStack: models of the diagnostic gateway, of the engine of root causes, and of
-- the knowledge base.
--
-- The gateway (mcp_gateway) answers tool calls of a language-model client with sanitized evidence
-- about Oracle databases. A line of input goes through the protocol (server.py) to the dispatcher
-- (gateway.py), which validates the arguments (schemas.py), evaluates the capability of the target
-- (catalog.py, versions.py), runs an adapter (adapters.py), sanitizes the rows it returns and keeps
-- the payload in a bounded store (evidence.py).
--
-- The engine (rca_engine) takes an incident with its evidence, which the intake checks and sanitizes
-- (intake.py, sanitize.py). It normalizes timestamps and builds a timeline (timeline.py), evaluates
-- the rules of a catalog (rules.py) into ranked hypotheses (hypothesis.py), lowers them if a declared
-- evidence is missing, and aggregates them to a root cause with recommendations (causality.py,
-- engine.py).
--
-- The knowledge base (change_documentation_knowledge) keeps articles that were drawn from such
-- results. A candidate is compared with what is there (knowledge.py) and added as a new version; a
-- version moves through the states of its lifecycle, by decisions of humans (authorization.py,
-- kb_store.py).
--
-- - Prelude, Prelude/*: numbers, lists, Boolean tests, integers, dicts in insertion order.
-- - Text, Text/Regex: texts as lists of code points, and regular expressions by derivatives,
--   for `re.match` and `re.fullmatch`.
-- - Versions: mcp_gateway/versions.py: `parse_version`, `compare_versions`, `family_of`;
--   Versions/Order and Versions/Families hold the proofs.
-- - Schemas: mcp_gateway/schemas.py: `validate` on JSON values; Schemas/Tools has the schemas
--   of gateway.py's TOOLS.
-- - Common: mcp_gateway/common.py: error codes, statuses, limits and results that may fail.
-- - Evidence/Store: mcp_gateway/evidence.py: EvidenceStore, with its clock and random
--   references as arguments; Store/Bounded, Store/Scope and Store/Eviction hold the proofs.
-- - Evidence/Grammar: the regular expressions of mcp_gateway/evidence.py and
--   rca_engine/sanitize.py.
-- - Evidence/Sanitize: mcp_gateway/evidence.py: `_sanitize_value`, `sanitize_rows` and the
--   alias tables of SessionScope; Sanitize/Forms and Sanitize/Deny hold the proofs.
-- - Catalog: mcp_gateway/catalog.py: Collector, Target, `_effective_versions`, `license_keys`
--   and `evaluate_capability`; Catalog/Capability holds the proof.
-- - Architecture: mcp_gateway/architecture.py: `derive`, `compare`,
--   `release_update_from_identity` and ObservedTarget; Architecture/View holds the proof.
-- - FieldValidation: mcp_gateway/field_validation.py: `_compare` and `assess` on a valid
--   registry; FieldValidation/Validated holds the proof.
-- - Adapters: mcp_gateway/adapters.py: the registry and `run_with_timeout`.
-- - Gateway: mcp_gateway/gateway.py: Session, the gateway's configuration, `_target` and
--   `_authorize`.
-- - Gateway/Collect: mcp_gateway/gateway.py: `_tool_collect` and `clock_check`, in the order of
--   the code, as a function from a state to a result and a state; Gateway/Authorized,
--   Gateway/Budget and Gateway/Counted hold the proofs.
-- - Gateway/Retrieve: mcp_gateway/gateway.py: `_tool_get_evidence`; Gateway/Roundtrip holds the
--   proof.
-- - Server, Server/Message: mcp_gateway/server.py: `handle_line`, `_notification` and
--   `_request` over the states NEW, INITIALIZING and READY, with the gateway's `call` as an
--   operation of a Service; Server/Phases, Server/Replies and Server/Measured hold the proofs.
-- - Rca/Evidence, Rca/Common: rca_engine/common.py: normalized evidence, the values of
--   attributes, and sets of texts.
-- - Rca/Rules: rca_engine/rules.py: `_condition_matches`, `_symptom_matches` and
--   `evaluate_rule`; Rules/Eligible, Rules/Grounded and Rules/Total hold the proofs.
-- - Rca/Hypothesis: rca_engine/hypothesis.py: `_status_and_confidence` and
--   `generate_hypotheses`; Hypothesis/Ranked and Hypothesis/Earned hold the proofs.
-- - Rca/Causality: rca_engine/causality.py, and `build_evidence_manifest` of
--   rca_engine/intake.py; Causality/Confirmed and Causality/Competing hold the proofs.
-- - Rca/Timeline: rca_engine/timeline.py: `_parse_timestamp`, `normalize_evidence` and
--   `build_timeline`; Timeline/Kept and Timeline/Distinct hold the proofs.
-- - Rca/Engine: rca_engine/engine.py: `run_rca` on sanitized evidence; Engine/Safe and
--   Engine/Total hold the proofs.
-- - Rca/Sanitize: rca_engine/sanitize.py: `sanitize_text`, `deep_sanitize` and
--   `sanitize_attributes`; Sanitize/Limited holds the proof.
-- - Rca/Intake: rca_engine/intake.py: the checks and the lists of the intake; Intake/Item is
--   `validate_and_sanitize`, with `classify_signature` of rca_engine/sanitize.py; Intake/Clean
--   and Intake/Valid hold the proofs.
-- - Rca/Fixture: rca_engine/engine.py: `run_rca` from a decoded fixture, which goes through the
--   intake, to the result and the map of tokens.
-- - Knowledge/State: change_documentation_knowledge/common.py: the states of an article,
--   KB_TRANSITIONS and HUMAN_DECISION_TRANSITIONS.
-- - Knowledge/Ids: change_documentation_knowledge/safety.py: `is_safe_id`.
-- - Knowledge/Article, Knowledge/Review: change_documentation_knowledge/knowledge.py:
--   `quality_gate` and `review_duplicates`.
-- - Knowledge/Authorization: change_documentation_knowledge/authorization.py:
--   `verify_authorization`.
-- - Knowledge/Store: change_documentation_knowledge/kb_store.py: the manifest and
--   `add_candidate`.
-- - Knowledge/Lifecycle: change_documentation_knowledge/kb_store.py: `transition`;
--   Lifecycle/Sound, Lifecycle/Performed, Lifecycle/Preserved, Lifecycle/Gated,
--   Lifecycle/Extended and Lifecycle/Refined hold the proofs.
-- - Knowledge/Reached: the knowledge bases that `add_candidate` and `transition` lead to.
-- - Tests: runs on concrete inputs.
--
-- Bounds: every loop of these parts runs over its input, so the models are structural recursions
-- without fuel. Integers are unbounded, as Python's are, but for counts and limits, which are
-- natural numbers. A float is a dyadic fraction, or not finite.
--
-- Parameters: the clock, random references, keyed hashes, digests, the normal form of a timestamp,
-- `re.sub`, what an adapter returns, the decoder of JSON and of dates, and Python's operations on
-- Unicode text (\w, \d, lower, isdigit, int), none of which is code of this repository.
--
-- Not modelled: in the gateway, the loading of catalogs and registries from files, the tools that
-- list, describe and analyze, the audit record, threads and standard streams; in the engine, its
-- reports, the loading of its rules and the command line; in the knowledge base, the making of
-- candidates and documents, the parsing of an authorization, the audit of what is written, and
-- retrieval. Planned. The capacity engine, the release checks, the laboratory adapter and the parsers
-- are left for later; maintenance scripts are input and output. Data and documents are no code.
pub mod Prelude
pub mod Text
pub mod Versions
pub mod Schemas
pub mod Common
pub mod Evidence
pub mod Catalog
pub mod Architecture
pub mod FieldValidation
pub mod Adapters
pub mod Gateway
pub mod Server
pub mod Rca
pub mod Knowledge
pub mod Tests

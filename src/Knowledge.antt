-- ===== src/Knowledge.antt =====
-- change_documentation_knowledge: the knowledge base, the lifecycle of its articles, and the human
-- decisions that it asks for.
pub mod Ids
pub mod State
pub mod Article
pub mod Review
pub mod Authorization
pub mod Store
pub mod Lifecycle
pub mod Reached

-- ===== src/Llm.antt =====
-- backend/src/enterprise_ai/llm: the drafts of answers, their citations and the service that responds.
pub mod Citations
pub mod Drafts
pub mod Identifiers
pub mod Matching
pub mod Comparison
pub mod Response
mod Tests

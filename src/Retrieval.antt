-- ===== src/Retrieval.antt =====
-- backend/src/enterprise_ai/retrieval: the retry policy.
pub mod Retry
mod Tests

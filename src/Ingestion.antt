-- ===== src/Ingestion.antt =====
-- ingestion/src/enterprise_ai_ingestion: the chunks that a parsed document is divided into.
pub mod Chunker
pub mod Records
mod Tests

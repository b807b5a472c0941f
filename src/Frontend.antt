-- ===== src/Frontend.antt =====
-- frontend/enterprise_ai_frontend: the parser of server-sent events, the validator of the stream's
-- contract.
pub mod Sse
pub mod Contract
mod Tests

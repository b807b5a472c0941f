-- ===== src/Api.antt =====
-- backend/src/enterprise_ai/api: the stream of a chat request.
pub mod Stream
mod Tests

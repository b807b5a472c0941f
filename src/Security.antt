-- ===== src/Security.antt =====
-- backend/src/enterprise_ai/security: the role policies and the authorization service.
pub mod Policies
pub mod Authorization
mod Tests

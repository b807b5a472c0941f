-- ===== src/Memory.antt =====
-- backend/src/enterprise_ai/memory: the bounded conversational memory of a session.
pub mod Models
pub mod Context
pub mod Catalog
pub mod Store
pub mod Service
mod Tests

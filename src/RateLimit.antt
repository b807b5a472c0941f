-- ===== src/RateLimit.antt =====
-- backend/src/enterprise_ai/rate_limit: token buckets, their store and the limiter.
pub mod Models
pub mod Store
pub mod TokenBucket
mod Tests

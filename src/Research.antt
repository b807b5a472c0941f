-- ===== src/Research.antt =====
-- backend/src/enterprise_ai/research: the budget ledger, the evidence of the workers and its coverage.
pub mod Coverage
pub mod Budget
pub mod Aggregation
mod Tests

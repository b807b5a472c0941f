-- ===== src/Retrieval/Tests.antt =====
-- An operation that fails once and then succeeds.
use enterprise_ai_knowledge.Common.{◌≡◌, ℕ, zero, suc, refl}
use enterprise_ai_knowledge.Retrieval.Retry.Attempts.{with_retries-Ended, Ended}
use enterprise_ai_knowledge.Retrieval.Retry.{returned, transient, attempts, Attempt, with_retries}

abbrev flaky : ℕ → Attempt ℕ
flaky zero = transient 1
flaky (suc n) = returned n

with_retries_run : with_retries flaky 3 ≡ (returned 0, 2)
unfolding with_retries attempts
with_retries_run = refl

with_retries-Ended_example : Ended flaky 0 3 (with_retries flaky 3)
with_retries-Ended_example = with_retries-Ended flaky 3

-- ===== src/Retrieval/Retry.antt =====
-- backend/src/enterprise_ai/retrieval/retry.py: `with_retries`. What the operation does when it is
-- called for the n-th time is a function of n; the waiting between the attempts is left out.
pub mod Attempts
use enterprise_ai_knowledge.Common.{ℕ, zero, suc}

-- How a call ends: a result, a `RetrievalTransientError`, or any other exception.
pub data Attempt {ℓ} (A : Type ℓ) : Type ℓ where
  returned : A → Attempt A
  transient raised : ℕ → Attempt A

-- The loop at an attempt, with the retries that are left: how it ends, and the calls that were made.
unfoldable pub attempts {ℓ} : {A : Type ℓ} → (ℕ → Attempt A) → ℕ → ℕ → Attempt A × ℕ
attempts operation zero attempt = (operation attempt, suc attempt)
attempts operation (suc left) attempt =
    let rest = attempts operation left (suc attempt) in
    elim (operation attempt) [
      | returned result ↦ (returned result, suc attempt)
      | transient error ↦ rest
      | raised error ↦ (raised error, suc attempt)
    ]

unfoldable pub with_retries {ℓ} : {A : Type ℓ} → (ℕ → Attempt A) → ℕ → Attempt A × ℕ
with_retries operation maximum_retries = attempts operation maximum_retries 0

-- ===== src/RateLimit/TokenBucket.antt =====
-- backend/src/enterprise_ai/rate_limit/token_bucket.py: `TokenBucketRateLimiter` over the
-- in-memory store. The clock is read once, in `evaluate`: `now` is what it returned.
pub mod Admitted
use enterprise_ai_knowledge.Common.{
  nat_eq, ◌||◌, true, some, none, ◌==◌, not, if◌then◌else◌, min, lookup, ◌+◌, ◌/◌, Option, Dict,
  ◌^◌, Bool, ℕ, Eq,
}
use enterprise_ai_knowledge.RateLimit.Models.{
  policy_name_eq, finite, RateLimitReasonCode, StoreEvaluation, Float, RateLimitSubjectCategory,
  same_policy, RateLimitRequest, RateLimitHeaders, RateLimitPolicyName, make_request,
  RateLimitDecision, RateLimitPolicy,
}
use enterprise_ai_knowledge.RateLimit.Store.{ok, err, epsilon, BucketStore, Outcome, consume}
use enterprise_ai_knowledge.Common.Int.{pos}

-- `RateLimitEnforcementError`, by its message.
pub data EnforcementError : Type 0 where
  policy_invalid enforcement_failed : EnforcementError

pub data Decided {ℓ} (A : Type ℓ) : Type ℓ where
  decided : A → Decided A
  refused : EnforcementError → Decided A

pub record Limiter : Type 0 where
  pub enabled : Bool
  pub policies : Dict RateLimitPolicyName RateLimitPolicy

unfoldable pub decision :
    Bool
    → RateLimitPolicy
    → RateLimitRequest
    → (remaining : ℕ) → Option ℕ
    → RateLimitReasonCode
    → RateLimitDecision
decision allowed policy request remaining retry_after reason = record {
  allowed = allowed;
  policy_name = policy.name;
  requested_cost = request.cost;
  remaining_tokens = min policy.capacity remaining;
  capacity = policy.capacity;
  retry_after_seconds = retry_after;
  reason_code = reason;
  public_explanation =
      if allowed then "Request is allowed." else "Too many requests. Please try again later.";
  subject_category = request.subject_category;
}

-- The decision of an evaluation of the store.
unfoldable pub decision_of :
    RateLimitPolicy → RateLimitRequest → Outcome StoreEvaluation → Decided RateLimitDecision
unfolding decision
decision_of policy request (err _) = refused enforcement_failed
decision_of policy request (ok result) = decided (
    decision result.allowed policy request result.remaining_tokens result.retry_after_seconds
      (if result.allowed then RateLimitReasonCode.allowed else RateLimitReasonCode.exceeded))

module _ {K : Type 0} ⦃e : Eq K⦄ where
  -- The part of `evaluate` below the checks of the policy.
  unfoldable pub enforce :
      Limiter
      → K
      → RateLimitPolicy
      → RateLimitRequest
      → Float
      → BucketStore K
      → Decided RateLimitDecision × BucketStore K
  enforce limiter bucket_key policy request now store =
      if not limiter.enabled
      then (
        decided (decision true policy request policy.capacity none RateLimitReasonCode.disabled),
        store,
      )
      else (let (result, store') =
            consume bucket_key policy (finite (pos request.cost)) now store in
          (decision_of policy request result, store'))

  unfoldable pub evaluate :
      Limiter
      → K
      → RateLimitPolicyName
      → RateLimitRequest
      → Float
      → BucketStore K
      → Decided RateLimitDecision × BucketStore K
  evaluate limiter bucket_key policy_name request now store =
      elim (lookup policy_name limiter.policies) [
        | none ↦ (refused policy_invalid, store)
        | some policy ↦
            if not (same_policy request.policy policy) || not (request.cost == policy.request_cost)
            then (refused policy_invalid, store)
            else enforce limiter bucket_key policy request now store
      ]

-- `request_for`; `refused` also stands for the `ValueError` of a request that costs nothing.
unfoldable pub request_for :
    Limiter → RateLimitPolicyName → RateLimitSubjectCategory → Decided RateLimitRequest
unfolding make_request
request_for limiter policy_name subject = elim (lookup policy_name limiter.policies) [
  | none ↦ refused policy_invalid
  | some policy ↦ elim (make_request policy subject (finite (pos policy.request_cost))) [
    | none ↦ refused policy_invalid
    | some request ↦ decided request
  ]
]

-- One token in units.
abbrev pub token : ℕ
token = 10 ^ 18

unfoldable pub headers_for : RateLimitDecision → RateLimitHeaders
headers_for d = record {
  limit = d.capacity / token;
  remaining = (d.remaining_tokens + epsilon) / token;
  reset_after_seconds = elim d.retry_after_seconds [ none ↦ 0 | some seconds ↦ seconds ];
  retry_after_seconds = d.retry_after_seconds;
}

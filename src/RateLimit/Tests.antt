-- ===== src/RateLimit/Tests.antt =====
-- Runs of the limiter and instances of its theorems.
use enterprise_ai_knowledge.Common.{
  lookup, nat_eq, ◌≤◌, ◌≡◌, ◌∷◌, ℕ, true, some, refl, none, false, arith, [], List, ◌+◌, ◌*◌,
}
use enterprise_ai_knowledge.RateLimit.Models.{
  policy_name_eq, RateLimitReasonCode, same_policy, RateLimitSubjectCategory, RateLimitRequest,
  finite, RateLimitPolicyName, StoreEvaluation, RateLimitPolicy, BucketState,
}
use enterprise_ai_knowledge.RateLimit.Store.{
  sweep, cleanup, after_access, written, epsilon, locked_step, ok, ticks_per_second, validate_state,
  finish, charge, Bucket, consume, BucketStore,
}
use enterprise_ai_knowledge.Common.Int.{excess, pos, ℤ}
use enterprise_ai_knowledge.RateLimit.Store.Rounds.{serve-le, serve}
use enterprise_ai_knowledge.RateLimit.TokenBucket.{
  decision_of, decision, enforce, Limiter, evaluate, token,
}
use enterprise_ai_knowledge.RateLimit.Store.Charge.{charge_retry}
use enterprise_ai_knowledge.RateLimit.Store.Cleanup.{consume-Holds, Holds}
use enterprise_ai_knowledge.RateLimit.TokenBucket.Admitted.{evaluate-Granted, Granted}

abbrev slow : RateLimitPolicy
slow = record {
  name = RateLimitPolicyName.standard;
  capacity = 3 * token;
  refill_rate = 500000000;
  request_cost = token;
}

abbrev second : ℕ → ℤ
second n = pos (n * ticks_per_second)

abbrev three : BucketState
three = record {
  available_tokens = finite (pos (2 * token));
  last_refill = finite (second 10);
  last_seen = finite (second 10);
}

abbrev three_bucket : Bucket
three_bucket = record { tokens = 2 * token; refilled = second 10; seen = second 10 }

abbrev burst : List (ℕ × ℤ)
burst = (token, second 10) ∷ (token, second 10) ∷ (token, second 11) ∷ (token, second 12) ∷ []

-- Two tokens in hand, then one refused, then one that had flowed in.
serve-burst : serve slow burst three ≡ (3 * token, 3)
unfolding serve validate_state charge
serve-burst = refl

serve-le_example :
    (serve slow burst three).0
    ≤ 2 * token + excess (second 12) (second 10) * 500000000 + (serve slow burst three).1 * epsilon
serve-le_example =
    serve-le slow (second 12) burst three three_bucket (omega arith) (unfold validate_state in refl)

abbrev empty_bucket : Bucket
empty_bucket = record { tokens = 0; refilled = second 10; seen = second 10 }

abbrev refusal : StoreEvaluation
refusal = record { allowed = false; remaining_tokens = 0; retry_after_seconds = some 2 }

charge_retry_example :
    (s : StoreEvaluation) × (st : BucketState) × (charge slow token (second 12) empty_bucket
      ≡ ok (s, st))
    × (s.allowed ≡ true)
unfolding charge validate_state
charge_retry_example =
    charge_retry slow token (second 10) (second 12) empty_bucket 2 {r = refusal}
      {st = written (second 10) empty_bucket 0} refl refl refl (omega arith) (omega arith)

abbrev store : BucketStore ℕ
store = record {
  ttl = 3600 * ticks_per_second;
  cleanup_interval = 1;
  cleanup_scan = 128;
  states = (7, three) ∷ [];
  locks = [];
  access_count = 4;
}

abbrev admitted : StoreEvaluation
admitted = record { allowed = true; remaining_tokens = token; retry_after_seconds = none }

consume-Holds_example :
    Holds 7 slow
      (second 10)
      admitted
      (consume 7 slow (finite (pos token)) (finite (second 10)) store).1
unfolding consume finish locked_step validate_state charge
consume-Holds_example = consume-Holds 7 slow (second 10) (finite (pos token)) store (refl, tt) refl

abbrev limiter : Limiter
limiter = record { enabled = true; policies = (RateLimitPolicyName.standard, slow) ∷ [] }

abbrev slow_request : RateLimitRequest
slow_request = record {
  policy = slow;
  subject_category = RateLimitSubjectCategory.authenticated_user;
  cost = token;
}

evaluate-Granted_example :
    (policy : RateLimitPolicy) × (lookup RateLimitPolicyName.standard limiter.policies
      ≡ some policy)
    × (same_policy slow policy ≡ true)
    × (token ≡ policy.request_cost)
    × (2 * token ≤ policy.capacity)
    × (true ≡ true
        → Granted true (consume 7 policy (finite (pos token)) (finite (second 12)) store).0)
unfolding evaluate enforce decision decision_of same_policy consume locked_step charge
    validate_state after_access finish cleanup sweep
evaluate-Granted_example =
    evaluate-Granted limiter 7 (finite (second 12)) store RateLimitPolicyName.standard slow_request
      {d = decision true slow slow_request (2 * token) none RateLimitReasonCode.allowed} refl

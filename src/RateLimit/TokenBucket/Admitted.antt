-- ===== src/RateLimit/TokenBucket/Admitted.antt =====
-- What an admission by the limiter rests on.
-- Admitted by the store, or the limiter is off.
use enterprise_ai_knowledge.Common.{
  nat_eq, ◌⊎◌, ◌≤◌, ◌≡◌, true, some, refl, nat_beq_iff, lookup, inr, inl, false, arith,
  Option-cases, Eq, Bool-cases, Bool, ◌==◌,
}
use enterprise_ai_knowledge.RateLimit.Store.{consume, err, BucketStore, ok, Outcome}
use enterprise_ai_knowledge.RateLimit.TokenBucket.{
  decided, enforce, evaluate, decision, Limiter, decision_of,
}
use enterprise_ai_knowledge.RateLimit.Models.{
  policy_name_eq, finite, same_policy, RateLimitDecision, RateLimitPolicyName, RateLimitRequest,
  RateLimitPolicy, Float, StoreEvaluation,
}
use enterprise_ai_knowledge.Common.Int.{pos}

abbrev pub Granted : Bool → Outcome StoreEvaluation → Type 0
Granted enabled evaluation =
    (enabled ≡ false) ⊎ ((r : StoreEvaluation) × (evaluation ≡ ok r) × (r.allowed ≡ true))

decision_of-Granted :
    (policy : RateLimitPolicy) (request : RateLimitRequest) (evaluation : Outcome StoreEvaluation)
    {d : RateLimitDecision}
    → decision_of policy request evaluation ≡ decided d
    → (d.remaining_tokens ≤ policy.capacity) × (d.allowed ≡ true → Granted true evaluation)
unfolding decision_of decision
decision_of-Granted policy request (err e) h = absurd (ground arith)
decision_of-Granted policy request (ok r) h =
    (ground arith, (λ admitted. inr (r, refl, ground arith)))

module _ {K : Type 0} ⦃e : Eq K⦄ (limiter : Limiter) (key : K) (now : Float)
    (store : BucketStore K) where
  enforce-Granted :
      (policy : RateLimitPolicy) (request : RateLimitRequest) {d : RateLimitDecision}
      → (enforce limiter key policy request now store).0 ≡ decided d
      → (d.remaining_tokens ≤ policy.capacity)
        × (d.allowed ≡ true
            → Granted limiter.enabled (consume key policy (finite (pos request.cost)) now store).0)
  unfolding enforce decision
  enforce-Granted policy request h = elim (Bool-cases limiter.enabled) [
    | inl on ↦ rw on (
        decision_of-Granted policy request
          (consume key policy (finite (pos request.cost)) now store).0 (rw on at h))
    | inr off ↦ (ground arith, λ admitted. inl off)
  ]

  -- A decision is only made under the configured policy of the name, which is the request's, at
  -- the policy's cost. It reports no more tokens than the capacity; and it admits the request only
  -- if the limiter is off or the store admitted it.
  pub evaluate-Granted :
      (policy_name : RateLimitPolicyName) (request : RateLimitRequest) {d : RateLimitDecision}
      → (evaluate limiter key policy_name request now store).0 ≡ decided d
      → (policy : RateLimitPolicy) × (lookup policy_name limiter.policies ≡ some policy)
        × (same_policy request.policy policy ≡ true)
        × (request.cost ≡ policy.request_cost)
        × (d.remaining_tokens ≤ policy.capacity)
        × (d.allowed ≡ true
            → Granted limiter.enabled (consume key policy (finite (pos request.cost)) now store).0)
  unfolding evaluate
  evaluate-Granted policy_name request h =
      elim (Option-cases (lookup policy_name limiter.policies)) [
        | inl absent ↦ absurd (ground arith)
        | inr (policy, found) ↦ elim (Bool-cases (same_policy request.policy policy)) [
          | inr other ↦ absurd (ground arith)
          | inl same ↦ elim (Bool-cases (request.cost == policy.request_cost)) [
            | inr dear ↦ absurd (ground arith)
            | inl cost ↦
                let granted =
                  enforce-Granted policy request (rw (found, same, cost, evaluate) at h) in
                (
                  policy,
                  found,
                  same,
                  (nat_beq_iff request.cost policy.request_cost).0 cost,
                  granted.0,
                  granted.1,
                )
          ]
        ]
      ]

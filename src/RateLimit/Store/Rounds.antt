-- ===== src/RateLimit/Store/Rounds.antt =====
-- Any number of calls on one bucket: the tokens admitted are bounded by what the bucket held, what
-- flowed in since, and the tolerance of each admission.
use enterprise_ai_knowledge.Common.{ℕ, ◌+◌, ◌*◌, ◌≤◌, ◌≡◌, ap, List, [], ◌∷◌, All, arith, inl, inr}
use enterprise_ai_knowledge.Common.Int.{ℤ, excess, ◌≤ℤ◌}
use enterprise_ai_knowledge.RateLimit.Models.{RateLimitPolicy, BucketState}
use enterprise_ai_knowledge.RateLimit.Store.{epsilon, ok, err, Bucket, validate_state, charge}
use enterprise_ai_knowledge.RateLimit.Store.Charge.{
  Outcome-cases, excess-max, spent, admissions, charge_budget, charge-validates,
}

-- The requests of one bucket in the order of their locks, each with its cost and time; the total
-- cost admitted and the number of admissions. An error stores nothing.

unfoldable pub serve : RateLimitPolicy → List (ℕ × ℤ) → BucketState → ℕ × ℕ
serve policy [] state = (0, 0)
serve policy ((cost, now) ∷ rest) state = elim (validate_state state policy) [
  | err _ ↦ serve policy rest state
  | ok b ↦ elim (charge policy cost now b) [
    | err _ ↦ serve policy rest state
    | ok (r, state') ↦
        let (total, n) = serve policy rest state' in (spent cost r + total, admissions r + n)
  ]
]

-- From a valid bucket, whatever requests come up to the time `t`, the cost admitted in all is at
-- most the tokens in the bucket, what the refill rate gives between its last refill and `t`, and
-- the tolerance once for each admission.
pub serve-le :
    (policy : RateLimitPolicy) (t : ℤ) (requests : List (ℕ × ℤ)) (state : BucketState) (b : Bucket)
    → All (λ q. q.1 ≤ℤ t) requests
    → validate_state state policy ≡ ok b
    → (serve policy requests state).0
      ≤ b.tokens
        + excess t b.refilled * policy.refill_rate
        + (serve policy requests state).1 * epsilon
unfolding serve
serve-le policy t [] state b h valid = omega arith
serve-le policy t ((cost, now) ∷ rest) state b h valid =
    rw (valid, serve)
      (elim (Outcome-cases (charge policy cost now b)) [
        | inl (e, failed) ↦ rw (failed, serve) (serve-le policy t rest state b h.1 valid)
        | inr ((r, state'), done) ↦ rw done (
            omega (
              arith,
              charge_budget policy cost now b done,
              ap (λ (x : ℕ). x * policy.refill_rate) (excess-max now t b.refilled h.0),
              serve-le policy t rest state' _ h.1 (charge-validates policy cost now b done),
            ))
      ])

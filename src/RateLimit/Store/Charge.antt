-- ===== src/RateLimit/Store/Charge.antt =====
-- One decision on a bucket: what it spends, what it keeps, when a refused request may come back.
use enterprise_ai_knowledge.Common.{
  ◌⊎◌, inr, inl, refl, none, ◌-◌, min, true, some, ◌<◌, ℕ, ◌+◌, ◌*◌, ◌≤◌, ◌≡◌, arith, if◌then◌else◌,
}
use enterprise_ai_knowledge.Common.Int.{ℤ, max_ℤ, excess, ◌≤ℤ◌}
use enterprise_ai_knowledge.RateLimit.Models.{RateLimitPolicy, BucketState, StoreEvaluation}
use enterprise_ai_knowledge.RateLimit.Store.{
  err, StoreError, Outcome, ticks_per_second, ceil_div, epsilon, ok, Bucket, validate_state, charge,
  written,
}
use native.Mathlib.Nat.{mul-le-mul_right, mod-lt, div-add-mod}

pub Outcome-cases {ℓ} :
    {A : Type ℓ} (o : Outcome A) → ((e : StoreError) × (o ≡ err e)) ⊎ ((a : A) × (o ≡ ok a))
Outcome-cases (err e) = inl (e, refl)
Outcome-cases (ok a) = inr (a, refl)

pub excess-max : (now t r : ℤ) → now ≤ℤ t → excess t (max_ℤ now r) + excess now r ≡ excess t r
excess-max now t r h = ground arith

-- What an admitted request costs; a refused one costs nothing.
abbrev pub spent : ℕ → StoreEvaluation → ℕ
spent cost r = if r.allowed then cost else 0

abbrev pub admissions : StoreEvaluation → ℕ
admissions r = if r.allowed then 1 else 0

module _ (policy : RateLimitPolicy) (cost : ℕ) (now : ℤ) (b : Bucket) where
  pub charge-written :
      {r : StoreEvaluation} {st : BucketState}
      → charge policy cost now b ≡ ok (r, st)
      → st ≡ written now b r.remaining_tokens
  unfolding charge
  charge-written h = ground arith

  pub charge-le-capacity :
      {r : StoreEvaluation} {st : BucketState}
      → charge policy cost now b ≡ ok (r, st)
      → r.remaining_tokens ≤ policy.capacity
  unfolding charge
  charge-le-capacity h = ground arith

  pub charge_budget :
      {r : StoreEvaluation} {st : BucketState}
      → charge policy cost now b ≡ ok (r, st)
      → spent cost r + r.remaining_tokens
        ≤ b.tokens + excess now b.refilled * policy.refill_rate + admissions r * epsilon
  unfolding charge
  charge_budget h = ground arith

-- A bucket that `charge` wrote passes the validation of the next call.
pub charge-validates :
    (policy : RateLimitPolicy) (cost : ℕ) (now : ℤ) (b : Bucket) {r : StoreEvaluation}
    {st : BucketState}
    → charge policy cost now b ≡ ok (r, st)
    → validate_state st policy
      ≡ ok (record {
        tokens = r.remaining_tokens;
        refilled = max_ℤ now b.refilled;
        seen = max_ℤ now b.seen;
      })
unfolding validate_state
charge-validates policy cost now b {r} {st} h =
    ground (arith, charge-written policy cost now b h, charge-le-capacity policy cost now b h)

-- Rounding up: so many times the divisor reach the dividend.
pub ceil_div_mul : (a n : ℕ) → 0 < n → a ≤ n * ceil_div a n
ceil_div_mul a n h = omega (arith, div-add-mod (a + (n - 1)) n, mod-lt (a + (n - 1)) {m = n} h)

-- What a refusal says: the tokens at hand fall short, and how many seconds bring the rest.
charge_refused :
    (policy : RateLimitPolicy) (cost : ℕ) (now : ℤ) (b : Bucket) (seconds : ℕ) {r : StoreEvaluation}
    {st : BucketState}
    → charge policy cost now b ≡ ok (r, st)
    → r.retry_after_seconds ≡ some seconds
    → (0 < policy.refill_rate)
      × (seconds ≡ ceil_div (cost - r.remaining_tokens) (policy.refill_rate * ticks_per_second))
unfolding charge
charge_refused policy cost now b seconds h again = ground arith

charge_admits :
    (policy : RateLimitPolicy) (cost : ℕ) (now : ℤ) (b : Bucket)
    → cost ≤ policy.capacity
    → cost ≤ b.tokens + excess now b.refilled * policy.refill_rate
    → (s : StoreEvaluation) × (st : BucketState) × (charge policy cost now b ≡ ok (s, st))
      × (s.allowed ≡ true)
unfolding charge
charge_admits policy cost now b fits enough =
    let available = min policy.capacity (b.tokens + excess now b.refilled * policy.refill_rate) in
    (
      record { allowed = true; remaining_tokens = available - cost; retry_after_seconds = none },
      written now b (available - cost),
      ground arith,
      refl,
    )

-- The seconds that were announced let enough flow in.
wait_suffices :
    (cost remaining rate seconds elapsed : ℕ)
    → 0 < rate
    → seconds ≡ ceil_div (cost - remaining) (rate * ticks_per_second)
    → seconds * ticks_per_second ≤ elapsed
    → cost ≤ remaining + elapsed * rate
wait_suffices cost remaining rate seconds elapsed positive e waited =
    let reached : cost - remaining ≤ rate * ticks_per_second * seconds =
      rw e (ceil_div_mul (cost - remaining) (rate * ticks_per_second) (omega arith)) in
    omega (arith, mul-le-mul_right rate waited)

-- After the wait that a refusal announces, the same request is admitted, if the bucket can hold
-- its cost at all.
pub charge_retry :
    (policy : RateLimitPolicy) (cost : ℕ) (now later : ℤ) (b : Bucket) (seconds : ℕ)
    {r : StoreEvaluation} {st : BucketState} {b' : Bucket}
    → charge policy cost now b ≡ ok (r, st)
    → r.retry_after_seconds ≡ some seconds
    → validate_state st policy ≡ ok b'
    → cost ≤ policy.capacity
    → seconds * ticks_per_second ≤ excess later b'.refilled
    → (s : StoreEvaluation) × (st' : BucketState) × (charge policy cost later b' ≡ ok (s, st'))
      × (s.allowed ≡ true)
charge_retry policy cost now later b seconds {r} {st} {b'} h again valid fits waited =
    let (positive, announced) = charge_refused policy cost now b seconds h again in
    let kept : b'.tokens ≡ r.remaining_tokens = cc (charge-validates policy cost now b h) in
    charge_admits policy cost later b' fits (
      rw kept (
        wait_suffices cost r.remaining_tokens policy.refill_rate seconds (excess later b'.refilled)
          positive announced waited))

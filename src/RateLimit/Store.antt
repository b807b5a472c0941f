-- ===== src/RateLimit/Store.antt =====
-- backend/src/enterprise_ai/rate_limit/store.py: `InMemoryBucketStore`. No `await` stands inside
-- the lock of a key, so a call runs from the lock to its release in one step. The locks that
-- other tasks hold are the flags in `locks`, which `cleanup` reads.
pub mod Charge
pub mod Rounds
pub mod Cleanup
use enterprise_ai_knowledge.Common.{
  ℕ, suc, ◌+◌, ◌-◌, ◌*◌, ◌/◌, ◌%◌, ◌^◌, min, Bool, true, false, not, ◌&&◌, ◌||◌, Option, none, some,
  [], ◌∷◌, Dict, Eq, ◌==◌, nat_eq, lookup, insert, remove, take, length, ltb, leb, if◌then◌else◌,
}
use enterprise_ai_knowledge.Common.Int.{ℤ, pos, max_ℤ, excess}
use enterprise_ai_knowledge.RateLimit.Models.{
  Float, finite, non_finite, is_positive, magnitude, RateLimitPolicy, BucketState, StoreEvaluation,
}

-- 1e-9 tokens
abbrev pub epsilon : ℕ
epsilon = 10 ^ 9

abbrev pub ticks_per_second : ℕ
ticks_per_second = 10 ^ 9

-- Python's `math.ceil(a / b)`
abbrev pub ceil_div : ℕ → ℕ → ℕ
ceil_div a b = (a + (b - 1)) / b

-- The messages of `RateLimitStoreError`.
pub data StoreError : Type 0 where
  invalid_input corrupted_state enforcement_failed : StoreError

pub data Outcome {ℓ} (A : Type ℓ) : Type ℓ where
  ok : A → Outcome A
  err : StoreError → Outcome A

-- The numbers of a bucket that `_validate_state` accepts.
pub record Bucket : Type 0 where
  pub tokens : ℕ
  pub refilled : ℤ
  pub seen : ℤ

-- `available_tokens < 0 or available_tokens > capacity + EPSILON`
abbrev tokens_in_range : ℕ → Float → Float → Float → Outcome Bucket
tokens_in_range capacity (finite (pos n)) (finite r) (finite s) =
    if ltb (capacity + epsilon) n
    then err corrupted_state
    else ok (record { tokens = n; refilled = r; seen = s })
tokens_in_range capacity _ _ _ = err corrupted_state

unfoldable pub validate_state : BucketState → RateLimitPolicy → Outcome Bucket
validate_state state policy =
    tokens_in_range policy.capacity state.available_tokens state.last_refill state.last_seen

-- What `consume` stores: the tokens that remain, and the latest of the times.
abbrev pub written : ℤ → Bucket → ℕ → BucketState
written now b remaining = record {
  available_tokens = finite (pos remaining);
  last_refill = finite (max_ℤ now b.refilled);
  last_seen = finite (max_ℤ now b.seen);
}

-- The refill and the decision, lines 62 to 78 of `consume`, on a validated state.
unfoldable pub charge :
    RateLimitPolicy → (cost : ℕ) (now : ℤ) → Bucket → Outcome (StoreEvaluation × BucketState)
charge policy cost now b =
    let elapsed = excess now b.refilled in
    let available = min policy.capacity (b.tokens + elapsed * policy.refill_rate) in
    if leb cost (available + epsilon)
    then ok (
      record { allowed = true; remaining_tokens = available - cost; retry_after_seconds = none },
      written now b (available - cost),
    )
    else if policy.refill_rate == 0
    then err enforcement_failed
    else ok (
      record {
        allowed = false;
        remaining_tokens = available;
        retry_after_seconds =
            some (ceil_div (cost - available) (policy.refill_rate * ticks_per_second));
      },
      written now b available,
    )

pub record BucketStore (K : Type 0) : Type 0 where
  pub ttl : ℕ
  pub cleanup_interval : ℕ
  pub cleanup_scan : ℕ
  pub states : Dict K BucketState
  pub locks : Dict K Bool
  pub access_count : ℕ

-- `__init__`; `none` is the `ValueError`.
unfoldable pub make_store : {K : Type 0} → Float → ℕ → ℕ → Option (BucketStore K)
make_store ttl interval scan =
    if not (is_positive ttl) || interval == 0 || scan == 0
    then none
    else some (record {
      ttl = magnitude ttl;
      cleanup_interval = interval;
      cleanup_scan = scan;
      states = [];
      locks = [];
      access_count = 0;
    })

-- `now - state.last_seen_monotonic > ttl`; a comparison with NaN is false, and a stored time is
-- never infinite.
abbrev is_stale : ℕ → ℤ → Float → Bool
is_stale ttl now (finite seen) = ltb ttl (excess now seen)
is_stale ttl now non_finite = false

-- `lock and lock.locked()`
abbrev is_held : Option Bool → Bool
is_held none = false
is_held (some held) = held

module _ {K : Type 0} ⦃e : Eq K⦄ where
  -- The loop of `cleanup` over the snapshot of the items; it returns how many it removed.
  unfoldable pub sweep : ℤ → Dict K BucketState → BucketStore K → ℕ × BucketStore K
  sweep now [] s = (0, s)
  sweep now ((key, state) ∷ rest) s =
      let dropped = is_stale s.ttl now state.last_seen && not (is_held (lookup key s.locks)) in
      let s' =
        if dropped
        then record s { states = remove key s.states; locks = remove key s.locks }
        else s in
      let (count, end) = sweep now rest s' in (if dropped then suc count else count, end)

  unfoldable pub cleanup : ℤ → BucketStore K → ℕ × BucketStore K
  cleanup now s = sweep now (take s.cleanup_scan s.states) s

  unfoldable pub bucket_count : BucketStore K → ℕ
  bucket_count s = length s.states

  -- `self._locks.setdefault(key, asyncio.Lock())`
  abbrev pub with_lock : K → BucketStore K → BucketStore K
  with_lock key s = elim (lookup key s.locks) [
    | none ↦ record s { locks = insert key false s.locks }
    | some held ↦ s
  ]

  -- `self._states.get(key)`, or a full bucket of the current time
  abbrev pub current_state : K → RateLimitPolicy → ℤ → BucketStore K → BucketState
  current_state key policy now s = elim (lookup key s.states) [
    | none ↦ record {
      available_tokens = finite (pos policy.capacity);
      last_refill = finite now;
      last_seen = finite now;
    }
    | some state ↦ state
  ]

  -- Lines 57 to 78: the body under the lock.
  unfoldable pub locked_step :
      K → RateLimitPolicy → ℕ → ℤ → BucketStore K → Outcome (StoreEvaluation × BucketState)
  locked_step key policy cost now s =
      elim (validate_state (current_state key policy now s) policy) [
        | err error ↦ err error
        | ok bucket ↦ charge policy cost now bucket
      ]

  -- Lines 86 to 91: the count of accesses, and the cleanup on every n-th.
  unfoldable pub after_access : ℤ → BucketStore K → BucketStore K
  after_access now s =
      let counted = record s { access_count = s.access_count + 1 } in
      if counted.access_count % counted.cleanup_interval == 0
      then (cleanup now counted).1
      else counted

  -- What follows the body under the lock: an error leaves at once, and a result is stored, counted
  -- and returned.
  unfoldable pub finish :
      K
      → ℤ
      → BucketStore K
      → Outcome (StoreEvaluation × BucketState)
      → Outcome StoreEvaluation × BucketStore K
  finish key now s (err error) = (err error, s)
  finish key now s (ok (result, state)) =
      (ok result, after_access now (record s { states = insert key state s.states }))

  -- `consume`; the store comes back beside an error too.
  unfoldable pub consume :
      K → RateLimitPolicy → Float → Float → BucketStore K → Outcome StoreEvaluation × BucketStore K
  consume key policy cost (finite now) s =
      let locked = with_lock key s in
      if not (is_positive cost)
      then (err invalid_input, s)
      else finish key now locked (locked_step key policy (magnitude cost) now locked)
  consume key policy cost non_finite s = (err invalid_input, s)

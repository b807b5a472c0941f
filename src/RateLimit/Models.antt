-- ===== src/RateLimit/Models.antt =====
-- backend/src/enterprise_ai/rate_limit/models.py and policy.py.
-- The source's floats are exact here. A time is a number of ticks, 10^9 to the second. An amount
-- of tokens is a number of units, 10^18 to the token, and a rate is in units per tick. So the
-- models speak of capacities, costs and times that are multiples of these, and of no rounding.
use enterprise_ai_knowledge.Common.{
  ℕ, zero, suc, ◌≡◌, String, Bool, true, false, ◌&&◌, Option, none, some, List, [], ◌∷◌, ◌++◌, Eq,
  eq_by_code, ◌==◌, nat_eq, arith, if◌then◌else◌, all_of,
}
use enterprise_ai_knowledge.Common.Int.{ℤ, pos, negsuc}

-- A Python float: a finite number, or an infinity or NaN.
pub data Float : Type 0 where
  finite : ℤ → Float
  non_finite : Float

-- `math.isfinite(value) and value > 0`
abbrev pub is_positive : Float → Bool
is_positive (finite (pos zero)) = false
is_positive (finite (pos (suc n))) = true
is_positive (finite (negsuc n)) = false
is_positive non_finite = false

-- The number that a positive float stands for.
abbrev pub magnitude : Float → ℕ
magnitude (finite (pos n)) = n
magnitude (finite (negsuc n)) = 0
magnitude non_finite = 0

pub data RateLimitPolicyName : Type 0 where
  login standard expensive : RateLimitPolicyName

abbrev pub policy_code : RateLimitPolicyName → ℕ
policy_code RateLimitPolicyName.login = 0
policy_code RateLimitPolicyName.standard = 1
policy_code RateLimitPolicyName.expensive = 2

pub policy_code_injective : (a b : RateLimitPolicyName) → policy_code a ≡ policy_code b → a ≡ b
policy_code_injective a b h = ground arith

instance abbrev pub policy_name_eq : Eq RateLimitPolicyName
policy_name_eq = eq_by_code policy_code policy_code_injective

pub data RateLimitReasonCode : Type 0 where
  allowed disabled exceeded enforcement_failed : RateLimitReasonCode

pub data RateLimitSubjectCategory : Type 0 where
  anonymous authenticated_user : RateLimitSubjectCategory

pub record RateLimitPolicy : Type 0 where
  pub name : RateLimitPolicyName
  pub capacity : ℕ
  pub refill_rate : ℕ
  pub request_cost : ℕ

-- The constructor with its `__post_init__`; `none` is the `ValueError`.
unfoldable pub make_policy : RateLimitPolicyName → Float → Float → Float → Option RateLimitPolicy
make_policy name capacity refill cost =
    if all_of is_positive (capacity ∷ refill ∷ cost ∷ [])
    then some (record {
      name = name;
      capacity = magnitude capacity;
      refill_rate = magnitude refill;
      request_cost = magnitude cost;
    })
    else none

-- Two policies are equal field by field.
unfoldable pub same_policy : RateLimitPolicy → RateLimitPolicy → Bool
same_policy p q =
    p.name == q.name
    && p.capacity == q.capacity
    && p.refill_rate == q.refill_rate
    && p.request_cost == q.request_cost

pub record BucketState : Type 0 where
  pub available_tokens : Float
  pub last_refill : Float
  pub last_seen : Float

pub record RateLimitRequest : Type 0 where
  pub policy : RateLimitPolicy
  pub subject_category : RateLimitSubjectCategory
  pub cost : ℕ

-- The constructor with its `__post_init__`.
unfoldable pub make_request :
    RateLimitPolicy → RateLimitSubjectCategory → Float → Option RateLimitRequest
make_request policy subject cost =
    if is_positive cost
    then some (record { policy = policy; subject_category = subject; cost = magnitude cost })
    else none

pub record StoreEvaluation : Type 0 where
  pub allowed : Bool
  pub remaining_tokens : ℕ
  pub retry_after_seconds : Option ℕ

pub record RateLimitDecision : Type 0 where
  pub allowed : Bool
  pub policy_name : RateLimitPolicyName
  pub requested_cost : ℕ
  pub remaining_tokens : ℕ
  pub capacity : ℕ
  pub retry_after_seconds : Option ℕ
  pub reason_code : RateLimitReasonCode
  pub public_explanation : String
  pub subject_category : RateLimitSubjectCategory

pub record RateLimitHeaders : Type 0 where
  pub limit : ℕ
  pub remaining : ℕ
  pub reset_after_seconds : ℕ
  pub retry_after_seconds : Option ℕ

-- `as_http_headers`, given Python's `str` on integers.
unfoldable pub as_http_headers : (ℕ → String) → RateLimitHeaders → List (String × String)
as_http_headers str h =
    let headers =
      ("X-RateLimit-Limit", str h.limit)
      ∷ ("X-RateLimit-Remaining", str h.remaining)
      ∷ ("X-RateLimit-Reset", str h.reset_after_seconds)
      ∷ [] in
    elim h.retry_after_seconds [
      | none ↦ headers
      | some retry ↦ headers ++ ("Retry-After", str retry) ∷ []
    ]

-- The settings that `policies_from_settings` reads for one policy.
pub record PolicySettings : Type 0 where
  pub capacity : Float
  pub refill_per_second : Float
  pub cost : Float

-- `policies_from_settings`: the read-only mapping, or `none` where a policy is refused.
unfoldable pub policies_from_settings :
    (RateLimitPolicyName → PolicySettings) → Option (List (RateLimitPolicyName × RateLimitPolicy))
unfolding make_policy
policies_from_settings settings =
    let build = λ (name : RateLimitPolicyName).
      make_policy name (settings name).capacity (settings name).refill_per_second
        (settings name).cost in
    elim (build RateLimitPolicyName.login) [
      | none ↦ none
      | some for_login ↦ elim (build RateLimitPolicyName.standard) [
        | none ↦ none
        | some for_standard ↦ elim (build RateLimitPolicyName.expensive) [
          | none ↦ none
          | some for_expensive ↦ some (
              (RateLimitPolicyName.login, for_login)
              ∷ (RateLimitPolicyName.standard, for_standard)
              ∷ (RateLimitPolicyName.expensive, for_expensive)
              ∷ [])
        ]
      ]
    ]

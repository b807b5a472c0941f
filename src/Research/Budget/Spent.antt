-- ===== src/Research/Budget/Spent.antt =====
-- The budget is kept, and what was granted is what is recorded.
-- What was granted of a resource.
use enterprise_ai_knowledge.Common.{
  true, false, Bool, nat_eq, ◌≤◌, ◌≡◌, ◌∷◌, ℕ, if◌then◌else◌, arith, [], List, ◌==◌, ◌+◌,
}
use enterprise_ai_knowledge.Research.Budget.{
  limit, ResearchBudgetUsage, with_used, used, resource_code, ResearchBudget, consume_all, Resource,
  charge,
}

unfoldable pub granted_of : Resource → List (Resource × ℕ) → ℕ
granted_of r [] = 0
granted_of r ((q, amount) ∷ rest) =
    if resource_code q == resource_code r then amount + granted_of r rest else granted_of r rest

charge-used :
    (budget : ResearchBudget) (r q : Resource) (amount : ℕ) (usage : ResearchBudgetUsage)
    → used (charge budget r amount usage).1 q
      ≡ granted_of q (if (charge budget r amount usage).0 then (r, amount) ∷ [] else [])
        + used usage q
unfolding charge used with_used granted_of
charge-used budget r q amount usage = ground arith

charge-limit :
    (budget : ResearchBudget) (r q : Resource) (amount : ℕ) (usage : ResearchBudgetUsage)
    → used usage q ≤ limit budget q
    → used (charge budget r amount usage).1 q ≤ limit budget q
unfolding charge used with_used
charge-limit budget r q amount usage h = ground arith

joined_grant :
    (q r : Resource) (amount : ℕ) (granted : Bool) (others : List (Resource × ℕ)) (a b c : ℕ)
    → b ≡ granted_of q (if granted then (r, amount) ∷ [] else []) + a
    → c ≡ granted_of q others + b
    → c ≡ granted_of q (if granted then (r, amount) ∷ others else others) + a
unfolding granted_of
joined_grant q r amount true others a b c first rest = ground arith
joined_grant q r amount false others a b c first rest = ground arith

-- For a usage that is within the limit of a resource: whatever is asked for, the usage at the end is
-- what was granted of the resource, on top of what was used before, and is within the limit.
pub consume_all-limit :
    (budget : ResearchBudget) (requests : List (Resource × ℕ)) (usage : ResearchBudgetUsage)
    (q : Resource)
    → used usage q ≤ limit budget q
    → (used (consume_all budget requests usage).1 q
        ≡ granted_of q (consume_all budget requests usage).0 + used usage q)
      × (used (consume_all budget requests usage).1 q ≤ limit budget q)
unfolding consume_all granted_of
consume_all-limit budget [] usage q h = (omega arith, h)
consume_all-limit budget ((r, amount) ∷ rest) usage q h =
    let ih =
      consume_all-limit budget rest (charge budget r amount usage).1 q
        (charge-limit budget r q amount usage h) in
    let step = charge-used budget r q amount usage in
    (
      joined_grant q r amount (charge budget r amount usage).0
          (consume_all budget rest (charge budget r amount usage).1).0 (used usage q)
          (used (charge budget r amount usage).1 q)
          (used (consume_all budget rest (charge budget r amount usage).1).1 q) step ih.0,
      ih.1,
    )

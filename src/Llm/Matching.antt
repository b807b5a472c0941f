-- ===== src/Llm/Matching.antt =====
-- `_assign_distinct_claims` of backend/src/enterprise_ai/llm/response_service.py: a matching of the
-- comparison's dimensions with the claims. The depth of the recursion is fuel: every call below
-- visits a claim that was not visited, so one more than the number of claims is enough.
pub mod Gained
pub mod Assigned
pub mod Distinct
pub mod Depth
use enterprise_ai_knowledge.Common.{
  none, some, lookup, insert, ◌+◌, ◌∷◌, ℕ, zero, true, suc, false, contains, [], List, Bool, nat_eq,
}

-- The claims that are visited, and the dimension that each assigned claim has.
abbrev pub Assignment : Type 0
Assignment = List ℕ × List (ℕ × ℕ)

-- `candidates[dimension_index]`
unfoldable pub candidates_of : List (List ℕ) → ℕ → List ℕ
candidates_of [] d = []
candidates_of (ids ∷ rest) zero = ids
candidates_of (ids ∷ rest) (suc d) = candidates_of rest d

-- The loop over a dimension's candidates, by the recursive call.
unfoldable pub try_claims :
    (ℕ → Assignment → Bool × Assignment) → ℕ → List ℕ → Assignment → Bool × Assignment
try_claims assign_previous d [] state = (false, state)
try_claims assign_previous d (claim ∷ rest) (visited, assignments) = elim (contains visited claim) [
  | true ↦ try_claims assign_previous d rest (visited, assignments)
  | false ↦ elim (lookup claim assignments) [
    | none ↦ (true, (claim ∷ visited, insert claim d assignments))
    | some previous ↦
        let (found, (visited', assignments')) =
          assign_previous previous (claim ∷ visited, assignments) in
        elim found [
          | true ↦ (true, (visited', insert claim d assignments'))
          | false ↦ try_claims assign_previous d rest (visited', assignments')
        ]
  ]
]

-- The recursive call of the loop.
abbrev pub Recursion : Type 0
Recursion = ℕ → Assignment → Bool × Assignment

-- The answer at depth zero: no claim is found. No run asks for it (Llm.Comparison.Terminating).
abbrev pub not_found : Recursion
not_found d state = (false, state)

module _ (candidates : List (List ℕ)) (exhausted : Recursion) where
  unfoldable pub assign : ℕ → Recursion
  assign zero d state = exhausted d state
  assign (suc depth) d state = try_claims (assign depth) d (candidates_of candidates d) state

  -- The loop over the dimensions from one on: those that are covered, and the assignments.
  unfoldable pub assign_all : ℕ → ℕ → List (List ℕ) → List (ℕ × ℕ) → List ℕ × List (ℕ × ℕ)
  assign_all depth d [] assignments = ([], assignments)
  assign_all depth d (ids ∷ rest) assignments =
      let (found, (visited, assignments')) = assign depth d ([], assignments) in
      let (covered, final) = assign_all depth (suc d) rest assignments' in
      elim found [ true ↦ (d ∷ covered, final) | false ↦ (covered, final) ]

unfoldable pub assign_distinct_claims : ℕ → List (List ℕ) → List ℕ
assign_distinct_claims claims candidates =
    (assign_all candidates not_found (suc claims) 0 candidates []).0

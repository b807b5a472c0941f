-- ===== src/Llm/Matching/Distinct.antt =====
-- The dimensions that are covered, by the claims that they are assigned.
use enterprise_ai_knowledge.Common.{
  All-imp, ◌≡◌, ◌∷◌, ℕ, true, suc, some, nat_beq_iff, lookup, contains, arith, [], List, Dict, All,
  list_eq, nat_eq,
}
use enterprise_ai_knowledge.Llm.Matching.{
  not_found, assign_all, assign_distinct_claims, candidates_of,
}
use enterprise_ai_knowledge.Llm.Matching.Assigned.{assign_all-Edges}
use enterprise_ai_knowledge.Llm.Matching.Gained.{Held}

-- `[index for ...]` of a dimension.
abbrev pub IsCandidate : List (List ℕ) → ℕ → ℕ → Type 0
IsCandidate candidates d claim = contains (candidates_of candidates d) claim ≡ true

contains-more :
    (x : ℕ) (xs ys : List ℕ)
    → All (λ c. contains xs c ≡ true) ys
    → All (λ c. contains (x ∷ xs) c ≡ true) ys
contains-more x xs [] h = tt
contains-more x xs (y ∷ ys) h = (ground (arith, h.0), contains-more x xs ys h.1)

All-contains : (xs : List ℕ) → All (λ c. contains xs c ≡ true) xs
All-contains [] = tt
All-contains (x ∷ xs) = (ground (arith, nat_beq_iff x x), contains-more x xs xs (All-contains xs))

-- There is an assignment of claims to dimensions, one at most for each claim, in which every
-- dimension that counts as covered has a claim, and that claim is one of its candidates: so the
-- covered dimensions have distinct claims.
pub assign_distinct_claims-Assigned :
    (claims : ℕ) (candidates : List (List ℕ))
    → (assignments : Dict ℕ ℕ) × All
        (λ d. (claim : ℕ) × (lookup claim assignments ≡ some d) × IsCandidate candidates d claim)
        (assign_distinct_claims claims candidates)
unfolding assign_distinct_claims
assign_distinct_claims-Assigned claims candidates =
    let run = assign_all candidates not_found (suc claims) 0 candidates [] in
    let h =
      assign_all-Edges (IsCandidate candidates) candidates (suc claims) 0 candidates []
        (λ e. All-contains (candidates_of candidates e)) (λ c d held. absurd (ground arith)) in
    (run.1, All-imp (Held run.1) _ (λ d held. (held.0, held.1, h.2 held.0 d held.1)) run.0 h.1)

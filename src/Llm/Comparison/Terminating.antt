-- ===== src/Llm/Comparison/Terminating.antt =====
-- The matching of a comparison's dimensions takes no more than the depth that it is given.
use enterprise_ai_knowledge.Common.{
  sym, ap, ◌≡◌, ◌∷◌, ℕ, zero, suc, refl, length, inr, inl, arith, [], List, Bool-cases, Bool,
  All-imp, All, ◌<◌, ◌+◌, list_eq, nat_eq,
}
use enterprise_ai_knowledge.Llm.Matching.{
  Recursion, Recursion, assign_all, candidates_of, assign_distinct_claims,
}
use enterprise_ai_knowledge.Llm.Comparison.{ComparisonRules, dimension_candidates, places}
use enterprise_ai_knowledge.Llm.Matching.Depth.{assign_all-same, assign_all-same, unvisited}
use enterprise_ai_knowledge.Llm.Citations.{GroundedClaim}
use enterprise_ai_knowledge.Llm.Drafts.{Requirements}

unvisited-nil : (n : ℕ) → unvisited n [] ≡ n
unvisited-nil zero = refl
unvisited-nil (suc n) = omega (arith, unvisited-nil n)

places-below :
    (test : GroundedClaim → Bool) (index : ℕ) (claims : List GroundedClaim)
    → All (λ c. c < index + length claims) (places test index claims)
unfolding places
places-below test index [] = tt
places-below test index (claim ∷ rest) =
    let later : All (λ c. c < index + length (claim ∷ rest)) (places test (suc index) rest) =
      All-imp (λ c. c < suc index + length rest) (λ c. c < index + length (claim ∷ rest))
        (λ c h. omega (arith, h)) (places test (suc index) rest)
        (places-below test (suc index) rest) in
    elim (Bool-cases (test claim)) [
      | inl e ↦ rw (e, places) (omega arith, later)
      | inr e ↦ rw (e, places) later
    ]

dimension_candidates-below :
    (rules : ComparisonRules) (claims : List GroundedClaim) (requirements : Requirements) (d : ℕ)
    → All
        (λ c. c < length claims)
        (candidates_of (dimension_candidates rules claims requirements) d)
unfolding candidates_of dimension_candidates
dimension_candidates-below rules claims [] d = tt
dimension_candidates-below rules claims (r ∷ rest) zero =
    All-imp (λ c. c < 0 + length claims) (λ c. c < length claims) (λ c h. omega (arith, h)) _
      (places-below _ 0 claims)
dimension_candidates-below rules claims (r ∷ rest) (suc d) =
    dimension_candidates-below rules claims rest d

-- The recursion of the matching ends: no run reaches depth zero, where the answer would be missing.
-- Whatever were answered there, and from one more than the number of the claims on whatever the depth
-- is, the same dimensions of a comparison are covered.
pub assign_distinct_claims-enough :
    (rules : ComparisonRules) (claims : List GroundedClaim) (requirements : Requirements)
    (exhausted : Recursion) (extra : ℕ)
    → (assign_all
        (dimension_candidates rules claims requirements)
        exhausted
        (extra + suc (length claims))
        0
        (dimension_candidates rules claims requirements)
        []).0
      ≡ assign_distinct_claims (length claims) (dimension_candidates rules claims requirements)
unfolding assign_distinct_claims
assign_distinct_claims-enough rules claims requirements exhausted extra =
    let candidates = dimension_candidates rules claims requirements in
    let room : unvisited (length claims) [] < suc (length claims) =
      omega (arith, unvisited-nil (length claims)) in
    ap (λ (x : List ℕ × List (ℕ × ℕ)). x.0)
      (sym (
        assign_all-same candidates (length claims)
          (dimension_candidates-below rules claims requirements) exhausted (suc (length claims))
          (extra + suc (length claims)) 0 candidates [] room (omega (arith, room))))

-- ===== src/Llm/Matching/Assigned.antt =====
-- What the matching of the dimensions with the claims assigns.
use enterprise_ai_knowledge.Common.{
  ◌≡◌, ◌∷◌, ◌∙◌, ℕ, zero, true, sym, suc, subst, refl, lookup, inr, inl, false, contains, arith, ap,
  [], Option-cases, List, Dict, Bool-cases, Bool, All, list_eq, nat_eq,
}
use enterprise_ai_knowledge.Llm.Matching.{
  not_found, candidates_of, assign, assign_all, Assignment, try_claims,
}
use enterprise_ai_knowledge.Llm.Matching.Gained.{
  take_over-Gained, Grows-more, Gained, Grows-trans, free-Gained, Edges, Result, Grows, Held,
}

module _ (Candidate : ℕ → ℕ → Type 0) where
  Result-Grows :
      (d : ℕ) (visited visited' : List ℕ) (a a' : Dict ℕ ℕ) (result : Bool × Assignment)
      → Grows visited visited'
      → a' ≡ a
      → Result Candidate d (visited', a') result
      → Result Candidate d (visited, a) result
  Result-Grows d visited visited' a a' (false, s) more same h =
      (Grows-trans visited visited' s.0 more h.0, h.1 ∙ same)
  Result-Grows d visited visited' a a' (true, s) more same
        (grown, (kept, (c, new, at), still, edges)) =
      (
        Grows-trans visited visited' s.0 more grown,
        (
          λ x seen.
              let also : contains visited' x ≡ true = ground (arith, more x) in
              kept x also ∙ ap (lookup x) same,
          (c, ground (arith, more c), at),
          λ e held. still e (subst (λ b. Held b e) (sym same) held),
          edges,
        ),
      )

  try_claims-Result :
      (assign_previous : ℕ → Assignment → Bool × Assignment) (d : ℕ) (claims : List ℕ)
      (visited : List ℕ) (a : Dict ℕ ℕ)
      → ((e : ℕ) (s : Assignment)
          → Edges Candidate s.1
          → Result Candidate e s (assign_previous e s))
      → All (Candidate d) claims
      → Edges Candidate a
      → Result Candidate d (visited, a) (try_claims assign_previous d claims (visited, a))
  unfolding try_claims
  try_claims-Result previous d [] visited a h ok edges = (λ c. ground arith, refl)
  try_claims-Result previous d (claim ∷ rest) visited a h ok edges =
      elim (Bool-cases (contains visited claim)) [
        | inl seen ↦
            rw (seen, try_claims) (try_claims-Result previous d rest visited a h ok.1 edges)
        | inr fresh ↦ elim (Option-cases (lookup claim a)) [
          | inl free ↦
              rw (fresh, free, try_claims)
                (λ c. ground arith, free-Gained Candidate d claim visited a fresh free ok.0 edges)
          | inr (holder, held) ↦
              let r = previous holder (claim ∷ visited, a) in
              let g = h holder (claim ∷ visited, a) edges in
              elim (Bool-cases r.0) [
                | inl found ↦
                    let got : Grows (claim ∷ visited) r.1.0
                        × Gained Candidate holder (claim ∷ visited) a r.1.1 =
                      rw found at g in
                    rw (fresh, held, found, try_claims)
                      (
                        Grows-more claim visited r.1.0 got.0,
                        take_over-Gained Candidate d claim holder visited a r.1.1 fresh held ok.0
                            got.1,
                      )
                | inr lost ↦
                    let kept : Grows (claim ∷ visited) r.1.0 × (r.1.1 ≡ a) = rw lost at g in
                    let more = Grows-more claim visited r.1.0 kept.0 in
                    let rest_result =
                      try_claims-Result previous d rest r.1.0 r.1.1 h ok.1
                        (subst (Edges Candidate) (sym kept.1) edges) in
                    rw (fresh, held, lost, try_claims)
                      (Result-Grows d visited r.1.0 a r.1.1
                        (try_claims previous d rest (r.1.0, r.1.1)) more kept.1 rest_result)
              ]
        ]
      ]

  pub assign-Result :
      (candidates : List (List ℕ)) (depth d : ℕ) (s : Assignment)
      → ((e : ℕ) → All (Candidate e) (candidates_of candidates e))
      → Edges Candidate s.1
      → Result Candidate d s (assign candidates not_found depth d s)
  unfolding assign
  assign-Result candidates zero d s ok edges = (λ c. ground arith, refl)
  assign-Result candidates (suc depth) d (visited, a) ok edges =
      try_claims-Result (assign candidates not_found depth) d (candidates_of candidates d) visited a
        (λ e s h. assign-Result candidates depth e s ok h) (ok d) edges

  pub visited-Grows :
      (d : ℕ) (s : Assignment) (result : Bool × Assignment)
      → Result Candidate d s result
      → Grows s.0 result.1.0
  visited-Grows d s (true, s') h = h.0
  visited-Grows d s (false, s') h = h.0

  -- Each dimension of the list holds a claim.
  abbrev AllHeld : Dict ℕ ℕ → List ℕ → Type 0
  AllHeld a ds = All (Held a) ds

  pub assign_all-Edges :
      (candidates : List (List ℕ)) (depth d : ℕ) (rest : List (List ℕ)) (a : Dict ℕ ℕ)
      → ((e : ℕ) → All (Candidate e) (candidates_of candidates e))
      → Edges Candidate a
      → ((e : ℕ) → Held a e → Held (assign_all candidates not_found depth d rest a).1 e)
        × AllHeld
            (assign_all candidates not_found depth d rest a).1
            (assign_all candidates not_found depth d rest a).0
        × Edges Candidate (assign_all candidates not_found depth d rest a).1
  unfolding assign_all
  assign_all-Edges candidates depth d [] a ok edges = (λ e held. held, tt, edges)
  assign_all-Edges candidates depth d (ids ∷ rest) a ok edges =
      let r = assign candidates not_found depth d ([], a) in
      let g = assign-Result candidates depth d ([], a) ok edges in
      elim (Bool-cases r.0) [
        | inl found ↦
            let got : Grows [] r.1.0 × Gained Candidate d [] a r.1.1 = rw found at g in
            let next = assign_all-Edges candidates depth (suc d) rest r.1.1 ok got.1.3 in
            rw (found, assign_all)
              (
                λ e held. next.0 e (got.1.2 e held),
                (next.0 d (got.1.1.0, got.1.1.2), next.1),
                next.2,
              )
        | inr lost ↦
            let kept : Grows [] r.1.0 × (r.1.1 ≡ a) = rw lost at g in
            let next =
              assign_all-Edges candidates depth (suc d) rest r.1.1 ok
                (subst (Edges Candidate) (sym kept.1) edges) in
            rw (lost, assign_all)
              (λ e held. next.0 e (subst (λ b. Held b e) (sym kept.1) held), next.1, next.2)
      ]

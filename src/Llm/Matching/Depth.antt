-- ===== src/Llm/Matching/Depth.antt =====
-- The depth of the recursion that the matching takes.
use enterprise_ai_knowledge.Common.{
  ◌∙◌, true, insert, ap, ◌≤◌, ◌≡◌, ◌∷◌, ℕ, zero, sym, suc, refl, nat_beq_iff, nat_beq, lookup, inr,
  inl, false, if◌then◌else◌, contains, arith, [], Option-cases, List, Dict, Bool-cases, Bool, All,
  ◌<◌, ◌+◌, list_eq, nat_eq,
}
use enterprise_ai_knowledge.Llm.Matching.{
  not_found, Recursion, assign_all, assign, candidates_of, Assignment, try_claims,
}
use enterprise_ai_knowledge.Llm.Matching.Assigned.{visited-Grows, assign-Result}
use enterprise_ai_knowledge.Llm.Matching.Gained.{Grows}

-- The claims below a number that are not visited.
abbrev pub unvisited : ℕ → List ℕ → ℕ
unvisited zero visited = 0
unvisited (suc n) visited = (if contains visited n then 0 else 1) + unvisited n visited

unvisited-Grows :
    (n : ℕ) (visited visited' : List ℕ)
    → Grows visited visited'
    → unvisited n visited' ≤ unvisited n visited
unvisited-Grows zero visited visited' h = omega arith
unvisited-Grows (suc n) visited visited' h =
    ground (arith, h n, unvisited-Grows n visited visited' h)

unvisited-visit :
    (n claim : ℕ) (visited : List ℕ)
    → claim < n
    → contains visited claim ≡ false
    → unvisited n (claim ∷ visited) < unvisited n visited
unvisited-visit zero claim visited below fresh = absurd (omega arith)
unvisited-visit (suc n) claim visited below fresh = elim (Bool-cases (nat_beq n claim)) [
  | inl same ↦
      let here : n ≡ claim = (nat_beq_iff n claim).0 same in
      let less = unvisited-Grows n visited (claim ∷ visited) (λ c. ground arith) in
      let now : contains visited n ≡ false = rw (sym here) at fresh in ground arith
  | inr other ↦
      let less : unvisited n (claim ∷ visited) < unvisited n visited =
        unvisited-visit n claim visited (ground (arith, nat_beq_iff n claim)) fresh in
      ground arith
]

try_claims-same :
    (n : ℕ) (f g : Recursion) (d : ℕ) (claims visited : List ℕ) (a : Dict ℕ ℕ)
    → ((e : ℕ) (s : Assignment) → unvisited n s.0 < unvisited n visited → f e s ≡ g e s)
    → ((e : ℕ) (s : Assignment) → Grows s.0 (f e s).1.0)
    → All (λ c. c < n) claims
    → try_claims f d claims (visited, a) ≡ try_claims g d claims (visited, a)
unfolding try_claims
try_claims-same n f g d [] visited a h grows below = refl
try_claims-same n f g d (claim ∷ rest) visited a h grows below =
    elim (Bool-cases (contains visited claim)) [
      | inl seen ↦ rw (seen, try_claims) (try_claims-same n f g d rest visited a h grows below.1)
      | inr fresh ↦ elim (Option-cases (lookup claim a)) [
        | inl free ↦ rw (fresh, free, try_claims) refl
        | inr (holder, held) ↦
            let less = unvisited-visit n claim visited below.0 fresh in
            let same = h holder (claim ∷ visited, a) less in
            let r = f holder (claim ∷ visited, a) in
            elim (Bool-cases r.0) [
              | inl found ↦
                  let found' : (g holder (claim ∷ visited, a)).0 ≡ true = rw same at found in
                  rw (fresh, held, found, found', try_claims)
                    (ap
                      (λ (x : Bool × Assignment).
                        let y : Bool × Assignment = (true, (x.1.0, insert claim d x.1.1)) in y)
                      same)
              | inr lost ↦
                  let more = grows holder (claim ∷ visited, a) in
                  let wider = unvisited-Grows n visited r.1.0 (λ c. ground (arith, more c)) in
                  let lost' : (g holder (claim ∷ visited, a)).0 ≡ false = rw same at lost in
                  rw (fresh, held, lost, lost', try_claims)
                    (try_claims-same n f g d rest r.1.0 r.1.1
                        (λ e s (fewer : unvisited n s.0 < unvisited n r.1.0). h e s (omega arith))
                        grows below.1
                      ∙ ap (λ (x : Bool × Assignment). try_claims g d rest x.1) same)
            ]
      ]
    ]

abbrev covering : ℕ → Bool → List ℕ × List (ℕ × ℕ) → List ℕ × List (ℕ × ℕ)
covering d found x = elim found [ true ↦ (d ∷ x.0, x.1) | false ↦ (x.0, x.1) ]

All-Unit : (xs : List ℕ) → All (λ c. Unit {0}) xs
All-Unit [] = tt
All-Unit (x ∷ xs) = (tt, All-Unit xs)

module _ (candidates : List (List ℕ)) where
  assign-Grows :
      (depth d : ℕ) (s : Assignment) → Grows s.0 (assign candidates not_found depth d s).1.0
  assign-Grows depth d s =
      visited-Grows (λ e c. Unit {0}) d s (assign candidates not_found depth d s)
        (assign-Result (λ e c. Unit {0}) candidates depth d s
          (λ e. All-Unit (candidates_of candidates e)) (λ c e held. tt))

  module _ (n : ℕ) (below : (d : ℕ) → All (λ c. c < n) (candidates_of candidates d))
      (exhausted : Recursion) where
    -- Above the number of the claims that are not visited, neither the depth nor the answer at depth
    -- zero matters.
    assign-same :
        (depth other d : ℕ) (s : Assignment)
        → unvisited n s.0 < depth
        → unvisited n s.0 < other
        → assign candidates not_found depth d s ≡ assign candidates exhausted other d s
    unfolding assign
    assign-same zero other d s h k = absurd (omega arith)
    assign-same (suc depth) zero d s h k = absurd (omega arith)
    assign-same (suc depth) (suc other) d (visited, a) h k =
        try_claims-same n (assign candidates not_found depth) (assign candidates exhausted other) d
          (candidates_of candidates d) visited a
          (λ e s (fewer : unvisited n s.0 < unvisited n visited).
            assign-same depth other e s (omega (arith, fewer, h)) (omega (arith, fewer, k)))
          (assign-Grows depth) (below d)

    pub assign_all-same :
        (depth other d : ℕ) (rest : List (List ℕ)) (a : Dict ℕ ℕ)
        → unvisited n [] < depth
        → unvisited n [] < other
        → assign_all candidates not_found depth d rest a
          ≡ assign_all candidates exhausted other d rest a
    unfolding assign_all
    assign_all-same depth other d [] a h k = refl
    assign_all-same depth other d (ids ∷ rest) a h k =
        let same = assign-same depth other d ([], a) h k in
        let g = assign candidates exhausted other d ([], a) in
        ap
          (λ (r : Bool × Assignment).
            covering d r.0 (assign_all candidates not_found depth (suc d) rest r.1.1))
          same
        ∙ ap (covering d g.0) (assign_all-same depth other (suc d) rest g.1.1 h k)

-- ===== src/Llm/Matching/Gained.antt =====
-- What one step of the matching gains: a claim that is free, or one that is taken over.
use enterprise_ai_knowledge.Common.{
  ◌≡◌, ◌∷◌, ◌∙◌, ℕ, true, sym, subst, some, refl, not, none, nat_beq_iff, nat_beq,
  lookup-insert_self, lookup-insert, lookup, insert, inr, inl, false, contains, arith, ap, List,
  Dict, Bool-cases, Bool, ◌&&◌, list_eq, nat_eq,
}
use enterprise_ai_knowledge.Llm.Matching.{Assignment}

abbrev pub Held : Dict ℕ ℕ → ℕ → Type 0
Held a d = (claim : ℕ) × (lookup claim a ≡ some d)

abbrev pub Grows : List ℕ → List ℕ → Type 0
Grows visited visited' = (c : ℕ) → (contains visited c && not (contains visited' c)) ≡ false

lookup-insert_other :
    (claim c d : ℕ) (a : Dict ℕ ℕ)
    → nat_beq claim c ≡ false
    → lookup c (insert claim d a) ≡ lookup c a
lookup-insert_other claim c d a other = ground (arith, lookup-insert claim c d a)

apart :
    (visited : List ℕ) (claim c : ℕ)
    → contains visited claim ≡ false
    → contains visited c ≡ true
    → nat_beq claim c ≡ false
apart visited claim c fresh seen = elim (Bool-cases (nat_beq claim c)) [
  | inr e ↦ e
  | inl e ↦
      let here : claim ≡ c = (nat_beq_iff claim c).0 e in
      let both : contains visited c ≡ false = rw here at fresh in absurd (ground arith)
]

apart_none :
    (a : Dict ℕ ℕ) (claim c e : ℕ)
    → lookup claim a ≡ none
    → lookup c a ≡ some e
    → nat_beq claim c ≡ false
apart_none a claim c e free held = elim (Bool-cases (nat_beq claim c)) [
  | inr other ↦ other
  | inl same ↦
      let here : claim ≡ c = (nat_beq_iff claim c).0 same in
      let both : lookup c a ≡ none = rw here at free in absurd (ground arith)
]

pub Grows-trans : (u v w : List ℕ) → Grows u v → Grows v w → Grows u w
Grows-trans u v w a b = λ c. ground (arith, a c, b c)

pub Grows-more : (claim : ℕ) (u v : List ℕ) → Grows (claim ∷ u) v → Grows u v
Grows-more claim u v a = λ c. ground (arith, a c)

module _ (Candidate : ℕ → ℕ → Type 0) where
  -- Every claim is assigned to a dimension that it is a candidate of.
  abbrev pub Edges : Dict ℕ ℕ → Type 0
  Edges a = (c d : ℕ) → lookup c a ≡ some d → Candidate d c

  -- An assignment gained a claim for the dimension that was not visited, left the visited claims
  -- alone, and still has a claim for each dimension that had one.
  abbrev pub Gained : ℕ → List ℕ → Dict ℕ ℕ → Dict ℕ ℕ → Type 0
  Gained d visited a a' =
      ((c : ℕ) → contains visited c ≡ true → lookup c a' ≡ lookup c a)
      × ((c : ℕ) × (contains visited c ≡ false) × (lookup c a' ≡ some d))
      × ((e : ℕ) → Held a e → Held a' e)
      × Edges a'

  abbrev pub Result : ℕ → Assignment → Bool × Assignment → Type 0
  Result d s (true, s') = Grows s.0 s'.0 × Gained d s.0 s.1 s'.1
  Result d s (false, s') = Grows s.0 s'.0 × (s'.1 ≡ s.1)

  insert-Gained :
      (d claim : ℕ) (visited : List ℕ) (a a' : Dict ℕ ℕ)
      → contains visited claim ≡ false
      → Candidate d claim
      → ((c : ℕ) → contains visited c ≡ true → lookup c a' ≡ lookup c a)
      → ((e : ℕ) → Held a e → (c : ℕ) × (nat_beq claim c ≡ false) × (lookup c a' ≡ some e))
      → Edges a'
      → Gained d visited a (insert claim d a')
  insert-Gained d claim visited a a' fresh ok kept still edges = (
    λ c seen. lookup-insert_other claim c d a' (apart visited claim c fresh seen) ∙ kept c seen,
    (claim, fresh, lookup-insert_self claim d a'),
    λ e held. let (c, other, at) = still e held in (c, lookup-insert_other claim c d a' other ∙ at),
    λ c e at. elim (Bool-cases (nat_beq claim c)) [
      | inl same ↦
          let here : claim ≡ c = (nat_beq_iff claim c).0 same in
          let got : some d ≡ some e =
            sym (lookup-insert_self claim d a')
            ∙ ap (λ x. lookup x (insert claim d a')) here
            ∙ at in
          let dims : d ≡ e = ground arith in
          subst (λ x. Candidate e x) here (subst (λ x. Candidate x claim) dims ok)
      | inr other ↦ edges c e (sym (lookup-insert_other claim c d a' other) ∙ at)
    ],
  )

  pub free-Gained :
      (d claim : ℕ) (visited : List ℕ) (a : Dict ℕ ℕ)
      → contains visited claim ≡ false
      → lookup claim a ≡ none
      → Candidate d claim
      → Edges a
      → Gained d visited a (insert claim d a)
  free-Gained d claim visited a fresh free ok edges =
      insert-Gained d claim visited a a fresh ok (λ c seen. refl)
        (λ e held. (held.0, apart_none a claim held.0 e free held.1, held.1)) edges

  pub take_over-Gained :
      (d claim previous : ℕ) (visited : List ℕ) (a a' : Dict ℕ ℕ)
      → contains visited claim ≡ false
      → lookup claim a ≡ some previous
      → Candidate d claim
      → Gained previous (claim ∷ visited) a a'
      → Gained d visited a (insert claim d a')
  take_over-Gained d claim previous visited a a' fresh held ok (kept, (c, new, at), still, edges) =
      insert-Gained d claim visited a a' fresh ok (λ x seen. kept x (ground arith))
        (λ e had.
          let (x, found) = still e had in
          elim (Bool-cases (nat_beq claim x)) [
            | inr other ↦ (x, other, found)
            | inl same ↦
                let here : claim ≡ x = (nat_beq_iff claim x).0 same in
                let both : some previous ≡ some e =
                  sym held
                  ∙ sym (kept claim (ground (arith, nat_beq_iff claim claim)))
                  ∙ ap (λ y. lookup y a') here
                  ∙ found in
                let dims : previous ≡ e = ground arith in
                (c, ground (arith, nat_beq_iff claim c, nat_beq_iff c claim), rw dims at at)
          ])
        edges

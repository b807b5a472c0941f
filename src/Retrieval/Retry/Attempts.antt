-- ===== src/Retrieval/Retry/Attempts.antt =====
-- The last attempt.
use enterprise_ai_knowledge.Common.{
  ◌⊎◌, ◌≤◌, ◌≡◌, ℕ, zero, true, suc, subst, refl, nat_beq_iff, nat_beq, inr, inl, false, arith,
  Bool-cases, Bool, ◌<◌, ◌+◌,
}
use enterprise_ai_knowledge.Retrieval.Retry.{
  raised, returned, transient, with_retries, Attempt, attempts,
}

module _ {A : Type 0} where
  abbrev pub is_transient : Attempt A → Bool
  is_transient (transient error) = true
  is_transient attempt = false

  -- The k-th call ended the loop: it is the first that is not transient, or the last allowed.
  abbrev pub Ended : (ℕ → Attempt A) → ℕ → ℕ → Attempt A × ℕ → Type 0
  Ended operation first last (outcome, calls) =
      (k : ℕ) × ((first ≤ k)
        × (k ≤ last)
        × (outcome ≡ operation k)
        × (calls ≡ suc k)
        × ((j : ℕ) → first ≤ j → j < k → is_transient (operation j) ≡ true)
        × (is_transient (operation k) ≡ true → k ≡ last))

  Attempt-cases :
      (a : Attempt A)
      → ((error : ℕ) × (a ≡ transient error))
        ⊎ (((result : A) × (a ≡ returned result)) ⊎ ((error : ℕ) × (a ≡ raised error)))
  Attempt-cases (returned result) = inr (inl (result, refl))
  Attempt-cases (transient error) = inl (error, refl)
  Attempt-cases (raised error) = inr (inr (error, refl))

  stops :
      (operation : ℕ → Attempt A) (n last : ℕ)
      → n ≤ last
      → is_transient (operation n) ≡ false
      → Ended operation n last (operation n, suc n)
  stops operation n last le final = (
    n,
    (omega arith, le, refl, refl, (λ j a b. absurd (omega arith)), λ h. absurd (ground arith)),
  )

  goes_on :
      (operation : ℕ → Attempt A) (n last : ℕ) (p : Attempt A × ℕ)
      → is_transient (operation n) ≡ true
      → Ended operation (suc n) last p
      → Ended operation n last p
  goes_on operation n last p again (k, (low, high, outcome, calls, before, end)) = (
    k,
    (
      omega arith,
      high,
      outcome,
      calls,
      λ j a b. elim (Bool-cases (nat_beq n j)) [
        | inl e ↦ subst (λ i. is_transient (operation i) ≡ true) ((nat_beq_iff n j).0 e) again
        | inr e ↦ before j (ground arith) b
      ],
      end,
    ),
  )

  attempts-Ended :
      (operation : ℕ → Attempt A) (left n last : ℕ)
      → left + n ≡ last
      → Ended operation n last (attempts operation left n)
  unfolding attempts
  attempts-Ended operation zero n last total =
      (n, (omega arith, omega arith, refl, refl, (λ j a b. absurd (omega arith)), λ h. omega arith))
  attempts-Ended operation (suc left) n last total = elim (Attempt-cases (operation n)) [
    | inl (error, e) ↦
        rw (e, attempts)
          (goes_on operation n last (attempts operation left (suc n)) (rw e refl)
            (attempts-Ended operation left (suc n) last (omega arith)))
    | inr (inl (result, e)) ↦
        let ended = stops operation n last (omega arith) (rw e refl) in
        rw (e, attempts) (subst (λ a. Ended operation n last (a, suc n)) e ended)
    | inr (inr (error, e)) ↦
        let ended = stops operation n last (omega arith) (rw e refl) in
        rw (e, attempts) (subst (λ a. Ended operation n last (a, suc n)) e ended)
  ]

  -- The operation is called until a call does not fail transiently, and once more than the retries
  -- allowed at most; the last call's outcome is the outcome, and it is a transient error only where
  -- every allowed call was.
  pub with_retries-Ended :
      (operation : ℕ → Attempt A) (maximum_retries : ℕ)
      → Ended operation 0 maximum_retries (with_retries operation maximum_retries)
  unfolding with_retries
  with_retries-Ended operation maximum_retries =
      attempts-Ended operation maximum_retries 0 maximum_retries (omega arith)

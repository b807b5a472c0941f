-- ===== src/Llm/Response/Bounds.antt =====
-- The number of the provider's calls that `retrieval_response` and `research_response` make.
use enterprise_ai_knowledge.Common.{
  zero, true, ltb, arith, ◌≤◌, ◌≡◌, ℕ, suc, some, none, inr, inl, false, Option-cases, Option, ◌+◌,
  list_eq, nat_eq,
}
use enterprise_ai_knowledge.Llm.Response.{ResponseRequest, LlmSettings, Reply, Collaborators}
use enterprise_ai_knowledge.Llm.Response.Generation.{
  is_spent, may_call, retrieval_response, replied, Outcome,
}
use enterprise_ai_knowledge.Llm.Response.Generation.Ends.{retrieval_response-Ran, Allowed}

-- What is said of a reply holds of the outcome, where it is one.
abbrev pub Replies : (Reply → Type 0) → Outcome → Type 0
Replies P (replied reply) = P reply
Replies P _ = Unit

-- The number does not exceed the maximum, where there is one.
abbrev pub WithinMaximum : Option ℕ → ℕ → Type 0
WithinMaximum none n = Unit
WithinMaximum (some maximum) n = n ≤ maximum

module _ (k : Collaborators) (settings : LlmSettings) (request : ResponseRequest) where
  abbrev calls : ℕ
  calls = (retrieval_response k settings request).1

  Allowed-WithinMaximum :
      (repairs : ℕ)
      → is_spent k settings request request.maximum_provider_calls ≡ false
      → Allowed k settings request repairs
      → (suc repairs ≤ settings.llm_citation_repair_attempts + 1)
        × WithinMaximum request.maximum_provider_calls (suc repairs)
  unfolding may_call
  Allowed-WithinMaximum zero room allowed = elim (Option-cases request.maximum_provider_calls) [
    | inl e ↦ (omega arith, rw e tt)
    | inr (zero, e) ↦ absurd (ground arith)
    | inr (suc maximum, e) ↦ (omega arith, rw e (omega arith))
  ]
  Allowed-WithinMaximum (suc repairs) room allowed =
      elim (Option-cases request.maximum_provider_calls) [
        | inl e ↦ (omega (arith, allowed.0), rw e tt)
        | inr (maximum, e) ↦
            let left : ltb (repairs + 1) maximum ≡ true = rw e at allowed.1 in
            (omega (arith, allowed.0), rw e (ground arith))
      ]

  WithinMaximum-zero : (maximum : Option ℕ) → WithinMaximum maximum 0
  WithinMaximum-zero none = tt
  WithinMaximum-zero (some maximum) = omega arith

  -- A response takes at most one call of the provider more than there may be repairs, and at most
  -- the maximum of calls, where the request has one.
  pub retrieval_response-le :
      (calls ≤ settings.llm_citation_repair_attempts + 1)
      × WithinMaximum request.maximum_provider_calls calls
  retrieval_response-le = elim (retrieval_response-Ran k settings request) [
    | inl e ↦ rw (e, calls) (omega arith, WithinMaximum-zero request.maximum_provider_calls)
    | inr (inl e) ↦ rw (e, calls) (omega arith, WithinMaximum-zero request.maximum_provider_calls)
    | inr (inr (room, (repairs, same, allowed, ends))) ↦
        rw (same, calls) (Allowed-WithinMaximum repairs room allowed)
  ]

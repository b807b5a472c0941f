-- ===== src/Llm/Response/Generation/Ends.antt =====
-- How a run of `retrieval_response` ends, behind its last call of the provider.
use enterprise_ai_knowledge.Common.{
  is_empty, false, not, inr, inl, arith, Bool-cases, ◌-◌, ◌&&◌, ◌⊎◌, ◌≤◌, ◌≡◌, ℕ, zero, true, suc,
  refl, list_eq, nat_eq,
}
use enterprise_ai_knowledge.Llm.Response.{
  scoped_context, rejected, provider_fallback_reason, GenerationError, ResponseRequest, generated,
  LlmGenerationResult, LlmSettings, Generated, Collaborators,
}
use enterprise_ai_knowledge.Llm.Response.Generation.{
  is_spent, retrieval_response, raised, conclude, replied, may_retry, may_call, Outcome, retry,
  refuse, accept_result, first_call, repair_loop,
}
use enterprise_ai_knowledge.Llm.Drafts.{GroundedAnswerDraft}
use enterprise_ai_knowledge.Llm.Response.Checks.{
  insufficient_response, fallback_response, check_draft,
}
use enterprise_ai_knowledge.Graph.State.{FallbackReason}

Generated-cases :
    (g : Generated)
    → ((result : LlmGenerationResult) × (g ≡ generated result))
      ⊎ (((error : GenerationError) × (g ≡ rejected error)) ⊎ (g ≡ Generated.cancelled))
Generated-cases (generated result) = inl (result, refl)
Generated-cases (rejected error) = inr (inl (error, refl))
Generated-cases Generated.cancelled = inr (inr refl)

module _ (k : Collaborators) (settings : LlmSettings) (request : ResponseRequest) where
  -- An outcome behind a number of repairs: the first call and each repair make one call.
  pub data Ends : Outcome → ℕ → Type 0 where
    settled :
        (result : LlmGenerationResult) (draft : GroundedAnswerDraft) (repairs : ℕ)
        → Ends
            (replied
              (conclude k settings request result (check_draft k settings request draft) repairs))
            repairs
    degraded :
        (reason : FallbackReason) (repairs : ℕ)
        → Ends (replied (fallback_response k settings request reason repairs)) repairs
    failed : (error : GenerationError) (repairs : ℕ) → Ends (raised error) repairs
    stopped : (repairs : ℕ) → Ends Outcome.interrupted repairs

  -- A repair was made only where it was allowed and the maximum of calls left room for it.
  abbrev pub Allowed : ℕ → Type 0
  Allowed zero = Unit
  Allowed (suc repairs) =
      (suc repairs ≤ settings.llm_citation_repair_attempts)
      × (may_call k settings request repairs ≡ true)

  -- The run made a first call and its repairs, which were allowed, and ended behind them.
  abbrev pub Ended : Outcome × ℕ → Type 0
  Ended run = (repairs : ℕ) × (run.1 ≡ suc repairs) × Allowed repairs × Ends run.0 repairs

  repair_loop-Ended :
      (result : LlmGenerationResult) (left repairs : ℕ) (draft : GroundedAnswerDraft)
      → left ≤ settings.llm_citation_repair_attempts - repairs
      → Allowed repairs
      → Ended (
          repair_loop k settings request result left repairs (check_draft k settings request draft))
  unfolding repair_loop
  repair_loop-Ended result zero repairs draft room allowed =
      (repairs, refl, allowed, settled result draft repairs)
  repair_loop-Ended result (suc left) repairs draft room allowed =
      let invalid = not (check_draft k settings request draft).validation.valid in
      let bound : suc repairs ≤ settings.llm_citation_repair_attempts = omega (arith, room) in
      elim (Bool-cases (invalid && may_call k settings request repairs)) [
        | inr stop ↦ rw (stop, repair_loop) (repairs, refl, allowed, settled result draft repairs)
        | inl go ↦
            let may : may_call k settings request repairs ≡ true = ground arith in
            elim (Generated-cases (k.generate (suc repairs))) [
              | inl (next, e) ↦
                  rw (go, e, repair_loop)
                    (repair_loop-Ended result left (suc repairs) next.draft (omega arith)
                      (bound, may))
              | inr (inl (error, e)) ↦
                  rw (go, e, repair_loop)
                    (
                      suc repairs,
                      refl,
                      (bound, may),
                      degraded FallbackReason.citation_validation_failed (suc repairs),
                    )
              | inr (inr e) ↦
                  rw (go, e, repair_loop) (suc repairs, refl, (bound, may), stopped (suc repairs))
            ]
      ]

  refuse-Ended :
      (error : GenerationError) (repairs : ℕ)
      → Allowed repairs
      → Ended (refuse k settings request error repairs)
  unfolding refuse may_call
  refuse-Ended error repairs allowed = elim (Bool-cases settings.llm_allow_deterministic_fallback) [
    | inl e ↦
        rw (e, refuse) (repairs, refl, allowed, degraded (provider_fallback_reason error) repairs)
    | inr e ↦ simp (e, refuse) (repairs, refl, allowed, failed error repairs)
  ]

  accept_result-Ended :
      (result : LlmGenerationResult) (repairs : ℕ)
      → Allowed repairs
      → Ended (accept_result k settings request result repairs)
  unfolding accept_result
  accept_result-Ended result repairs allowed =
      repair_loop-Ended result (settings.llm_citation_repair_attempts - repairs) repairs
        result.draft (omega arith) allowed

  retry-Ended : (error : GenerationError) → Ended (retry k settings request error)
  unfolding retry may_retry
  retry-Ended error = elim (Bool-cases (may_retry k settings request error)) [
    | inr stop ↦ rw (stop, retry) (refuse-Ended error 0 tt)
    | inl go ↦
        let allowed : Allowed 1 = ground arith in
        elim (Generated-cases (k.generate 1)) [
          | inl (result, e) ↦ rw (go, e, retry) (accept_result-Ended result 1 allowed)
          | inr (inl (failure, e)) ↦ rw (go, e, retry) (refuse-Ended failure 1 allowed)
          | inr (inr e) ↦ rw (go, e, retry) (1, refl, allowed, stopped 1)
        ]
  ]

  pub first_call-Ended : Ended (first_call k settings request)
  unfolding first_call
  first_call-Ended = elim (Generated-cases (k.generate 0)) [
    | inl (result, e) ↦ rw (e, first_call) (accept_result-Ended result 0 tt)
    | inr (inl (error, e)) ↦ rw (e, first_call) (retry-Ended error)
    | inr (inr e) ↦ rw (e, first_call) (0, refl, tt, stopped 0)
  ]

  -- Without evidence or without calls that are left, no call is made; else the first call ends.
  abbrev pub Ran : Outcome × ℕ → Type 0
  Ran run =
      (run ≡ (replied insufficient_response, 0))
      ⊎ ((run ≡ (
        replied
            (fallback_response k settings request FallbackReason.provider_call_budget_exhausted 0),
        0,
      ))
          ⊎ ((is_spent k settings request request.maximum_provider_calls ≡ false) × Ended run))

  pub retrieval_response-Ran : Ran (retrieval_response k settings request)
  unfolding retrieval_response
  retrieval_response-Ran = elim (Bool-cases (is_empty (scoped_context request))) [
    | inl e ↦ inl (rw (e, retrieval_response) refl)
    | inr e ↦ elim (Bool-cases (is_spent k settings request request.maximum_provider_calls)) [
      | inl f ↦ inr (inl (rw (e, f, retrieval_response) refl))
      | inr f ↦ inr (inr (f, rw (e, f, retrieval_response) first_call-Ended))
    ]
  ]

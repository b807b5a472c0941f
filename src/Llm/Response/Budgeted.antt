-- ===== src/Llm/Response/Budgeted.antt =====
-- The calls that `research_response` reports against those that it makes and those that are left.
use enterprise_ai_knowledge.Llm.Response.Generation.Ends.{
  retrieval_response-Ran, settled, degraded, failed, stopped,
}
use enterprise_ai_knowledge.Common.{
  ◌⊎◌, inr, inl, ◌+◌, ◌≤◌, ◌≡◌, ℕ, refl, arith, List, ◌-◌, list_eq, nat_eq,
}
use enterprise_ai_knowledge.Llm.Response.{
  GenerationError, CheckedDraft, LlmGenerationResult, ResponseRequest, LlmSettings, Reply,
  Collaborators,
}
use enterprise_ai_knowledge.Llm.Response.Checks.{
  check_draft, insufficient_response, fallback_response,
}
use enterprise_ai_knowledge.Llm.Response.Generation.{
  retrieval_response, raised, replied, Outcome, conclude,
}
use enterprise_ai_knowledge.Llm.Response.Research.{
  research_response, synthesis_request, reported_calls, remaining_calls, ResearchSummary,
  ResearchRules,
}
use enterprise_ai_knowledge.Llm.Response.Bounds.{retrieval_response-le, Replies}
use enterprise_ai_knowledge.Research.Aggregation.{HybridEvidence}
use enterprise_ai_knowledge.Llm.Response.Generation.Ends.{Ends}

conclude-repairs :
    (k : Collaborators) (settings : LlmSettings) (request : ResponseRequest)
    (result : LlmGenerationResult) (checked : CheckedDraft) (repairs : ℕ)
    → (conclude k settings request result checked repairs).repairs ≡ repairs
unfolding conclude fallback_response
conclude-repairs k settings request result checked repairs = ground arith

Ends-repairs :
    (k : Collaborators) (settings : LlmSettings) (request : ResponseRequest) (outcome : Outcome)
    (repairs : ℕ)
    → Ends k settings request outcome repairs
    → Replies (λ reply. reply.repairs ≡ repairs) outcome
unfolding fallback_response
Ends-repairs k settings request outcome repairs (settled result draft n) =
    conclude-repairs k settings request result (check_draft k settings request draft) n
Ends-repairs k settings request outcome repairs (degraded reason n) = refl
Ends-repairs k settings request outcome repairs (failed error n) = tt
Ends-repairs k settings request outcome repairs (stopped n) = tt

Replies-imp :
    {P Q : Reply → Type 0} (outcome : Outcome)
    → ((reply : Reply) → P reply → Q reply)
    → Replies P outcome
    → Replies Q outcome
Replies-imp (replied reply) h p = h reply p
Replies-imp (raised error) h p = tt
Replies-imp Outcome.interrupted h p = tt

Outcome-cases :
    (o : Outcome)
    → ((reply : Reply) × (o ≡ replied reply))
      ⊎ (((error : GenerationError) × (o ≡ raised error)) ⊎ (o ≡ Outcome.interrupted))
Outcome-cases (replied reply) = inl (reply, refl)
Outcome-cases (raised error) = inr (inl (error, refl))
Outcome-cases Outcome.interrupted = inr (inr refl)

module _ (k : Collaborators) (rules : ResearchRules) (settings : LlmSettings)
    (research : ResearchSummary) (evidence : List HybridEvidence) (request : ResponseRequest) where
  abbrev run : Outcome × ℕ
  run = retrieval_response k settings (synthesis_request rules settings research evidence request)

  abbrev reported : Reply → ℕ
  reported reply = reported_calls rules settings research evidence reply

  reported-le :
      Replies
        (λ reply.
          (run.1 ≤ reported reply)
          × (reported reply ≤ settings.research_max_llm_calls - research.llm_calls))
        run.0
  unfolding synthesis_request remaining_calls insufficient_response fallback_response
  reported-le =
      let q = synthesis_request rules settings research evidence request in
      let left = settings.research_max_llm_calls - research.llm_calls in
      let within : run.1 ≤ left = (retrieval_response-le k settings q).1 in
      elim (retrieval_response-Ran k settings q) [
        | inl e ↦ rw (e, reported, run) (ground arith)
        | inr (inl e) ↦ rw (e, reported, run) (ground arith)
        | inr (inr (room, (repairs, same, allowed, ends))) ↦
            Replies-imp run.0 (λ reply e. ground arith)
              (Ends-repairs k settings q run.0 repairs ends)
      ]

  -- Where the research has made no more calls than allowed, its answer makes no more than it
  -- reports, and with those that it reports the research stays within what is allowed.
  pub research_response-le :
      (reply : Reply)
      → research.llm_calls ≤ settings.research_max_llm_calls
      → (research_response rules settings research evidence k request).0.0 ≡ replied reply
      → ((research_response rules settings research evidence k request).1
          ≤ (research_response rules settings research evidence k request).0.1)
        × (research.llm_calls + (research_response rules settings research evidence k request).0.1
            ≤ settings.research_max_llm_calls)
  unfolding research_response
  research_response-le reply allowed answered = elim (Outcome-cases run.0) [
    | inl (r, e) ↦
        let h : (run.1 ≤ reported r)
            × (reported r ≤ settings.research_max_llm_calls - research.llm_calls) =
          rw e at reported-le in
        rw (e, run, research_response) (h.0, omega (arith, h.1))
    | inr (inl (error, e)) ↦ absurd (ground arith)
    | inr (inr e) ↦ absurd (ground arith)
  ]

-- ===== src/Llm/Response/Valid.antt =====
-- Every response of the service passes the validator of `GroundedResponse`.
use enterprise_ai_knowledge.Llm.Response.Generation.Ends.{
  retrieval_response-Ran, Ends, settled, degraded, failed, stopped,
}
use enterprise_ai_knowledge.Common.{◌≡◌, ℕ, true, refl, inr, inl, arith, Text, list_eq, nat_eq}
use enterprise_ai_knowledge.Llm.Response.Analysis.{RenderedAnalysis, analysis_response}
use enterprise_ai_knowledge.Llm.Response.{
  is_valid_answer, ResponseRequest, LlmSettings, Collaborators,
}
use enterprise_ai_knowledge.Llm.Response.Generation.{retrieval_response, Outcome, conclude}
use enterprise_ai_knowledge.Llm.Response.Checks.{
  insufficient_response, comparison_fallback_response, fallback_response,
}
use enterprise_ai_knowledge.Llm.Response.Bounds.{Replies}

-- The response of an analysis is valid.
pub analysis_response-is_valid_answer :
    (decimal : ℕ → Text) (settings : LlmSettings) (analysis : RenderedAnalysis)
    → is_valid_answer (analysis_response decimal settings analysis) ≡ true
unfolding analysis_response
analysis_response-is_valid_answer decimal settings analysis = refl

module _ (k : Collaborators) (settings : LlmSettings) (request : ResponseRequest) where
  Ends-is_valid_answer :
      (outcome : Outcome) (repairs : ℕ)
      → Ends k settings request outcome repairs
      → Replies (λ reply. is_valid_answer reply.response ≡ true) outcome
  unfolding conclude fallback_response comparison_fallback_response
  Ends-is_valid_answer outcome repairs (settled result draft n) = ground arith
  Ends-is_valid_answer outcome repairs (degraded reason n) = refl
  Ends-is_valid_answer outcome repairs (failed error n) = tt
  Ends-is_valid_answer outcome repairs (stopped n) = tt

  -- So is the response of every reply.
  pub retrieval_response-is_valid_answer :
      Replies
        (λ reply. is_valid_answer reply.response ≡ true)
        (retrieval_response k settings request).0
  unfolding fallback_response insufficient_response
  retrieval_response-is_valid_answer = elim (retrieval_response-Ran k settings request) [
    | inl e ↦ rw e refl
    | inr (inl e) ↦ rw e refl
    | inr (inr (room, (repairs, same, allowed, ends))) ↦
        Ends-is_valid_answer (retrieval_response k settings request).0 repairs ends
  ]

-- ===== src/Llm/Response/Fallback.antt =====
-- What holds of the deterministic answers.
use enterprise_ai_knowledge.Llm.Response.Generation.Ends.{
  retrieval_response-Ran, Ends, settled, degraded, failed, stopped,
}
use enterprise_ai_knowledge.Common.{
  is_empty, ◌≡◌, ◌∙◌, ℕ, true, subst, some, refl, length, inr, inl, flat_map, false, arith, [],
  List, Bool-cases, Bool, ◌==◌, list_eq, nat_eq,
}
use enterprise_ai_knowledge.Llm.Response.{
  identifier_evidence_ids, LlmGenerationResult, scoped_context, Reply, ResponseRequest, LlmSettings,
  Collaborators,
}
use enterprise_ai_knowledge.Llm.Citations.{
  used_from, cited, used_ids, validated, VerifiedCitation, mapping_from, validate_citations,
  EvidenceContextItem,
}
use enterprise_ai_knowledge.Llm.Response.Checks.{
  check_draft, cited_validation, comparison_fallback_response, fallback_draft,
  insufficient_response, fallback_response,
}
use enterprise_ai_knowledge.Llm.Drafts.{render_draft, GroundedAnswerDraft}
use enterprise_ai_knowledge.Llm.Response.Generation.{replied, retrieval_response, Outcome, conclude}
use enterprise_ai_knowledge.Graph.State.{FallbackReason}
use enterprise_ai_knowledge.Llm.Identifiers.{
  validate_identifier_alignment, validate_and_repair_response_identifiers,
}
use enterprise_ai_knowledge.Llm.Response.Verified.{check_draft-Cited, cited_by}
use enterprise_ai_knowledge.Llm.Response.Bounds.{Replies}
use enterprise_ai_knowledge.Llm.Comparison.{append_validation_errors}
use enterprise_ai_knowledge.Llm.Response.Stricter.{
  validate_identifier_alignment-Stricter, append_validation_errors-Stricter,
  validate_citations-Consistent,
}

-- No two items of the context have one model identifier.
abbrev pub AreDistinct : List EvidenceContextItem → Type 0
AreDistinct context = (length (mapping_from [] context) == length context) ≡ true

-- The reply is to a comparison that could not be validated.
abbrev pub is_unvalidated : Reply → Bool
is_unvalidated reply = elim reply.response.fallback_reason [
  | some FallbackReason.research_dimension_validation_failed ↦ true
  | _ ↦ false
]

module _ (k : Collaborators) (settings : LlmSettings) (request : ResponseRequest) where
  -- `validate_citations` accepts the draft and made the citations.
  abbrev pub Grounded : GroundedAnswerDraft → List VerifiedCitation → Type 0
  Grounded draft citations =
      ((cited_by k settings request draft).valid ≡ true)
      × (citations ≡ (cited_by k settings request draft).citations)

  claimless-valid :
      AreDistinct (scoped_context request)
      → ((validate_citations []
            (scoped_context request)
            request.principal
            settings.llm_max_citations
            k.expected_build).valid
          ≡ true)
        × ([]
            ≡ (validate_citations []
                (scoped_context request)
                request.principal
                settings.llm_max_citations
                k.expected_build).citations)
  unfolding validate_citations validated used_ids used_from cited flat_map
  claimless-valid distinct = rw (distinct, validate_citations) (ground arith, refl)

  fallback_draft-Grounded :
      AreDistinct (scoped_context request)
      → Grounded
          (fallback_draft k settings request).0
          (fallback_draft k settings request).1.citations
  unfolding fallback_draft cited_validation
  fallback_draft-Grounded distinct =
      let repaired =
        validate_and_repair_response_identifiers k.repair_text k.sorted
          (k.extract (scoped_context request)) (identifier_evidence_ids request) in
      let base = cited_by k settings request repaired.draft in
      let appended = append_validation_errors base repaired.errors in
      let aligned =
        validate_identifier_alignment repaired.draft appended (scoped_context request)
          (identifier_evidence_ids request) in
      let s0 =
        validate_citations-Consistent repaired.draft.claims (scoped_context request)
          request.principal settings.llm_max_citations k.expected_build in
      let s1 = append_validation_errors-Stricter base repaired.errors s0 in
      let s2 =
        validate_identifier_alignment-Stricter repaired.draft appended (scoped_context request)
          (identifier_evidence_ids request) s1.2 in
      elim (Bool-cases aligned.valid) [
        | inl e ↦
            let appended_valid : appended.valid ≡ true = ground arith in
            let base_valid : base.valid ≡ true = ground arith in
            rw (e, fallback_draft) (base_valid, s2.0 ∙ s1.0)
        | inr e ↦ rw (e, fallback_draft) ((claimless-valid distinct).0, refl)
      ]

  conclude-Grounded :
      (result : LlmGenerationResult) (draft : GroundedAnswerDraft) (repairs : ℕ)
      → AreDistinct (scoped_context request)
      → let reply =
          conclude k settings request result (check_draft k settings request draft) repairs in
        is_unvalidated reply ≡ false → Grounded reply.draft reply.response.citations
  unfolding conclude fallback_response comparison_fallback_response
  conclude-Grounded result draft repairs distinct h =
      let checked = check_draft k settings request draft in
      let violates =
        k.has_policy_violations (render_draft k.model_text k.strip_right checked.draft) in
      elim (Bool-cases checked.validation.valid) [
        | inr invalid ↦ elim (Bool-cases (is_empty request.comparison_dimensions)) [
          | inr compared ↦ absurd (ground arith)
          | inl plain ↦ simp (invalid, plain, conclude) (fallback_draft-Grounded distinct)
        ]
        | inl valid ↦ elim (Bool-cases violates) [
          | inl violated ↦ simp (valid, violated, conclude) (fallback_draft-Grounded distinct)
          | inr clean ↦
              let cited = check_draft-Cited k settings request draft valid in
              simp (valid, clean, conclude) (cited.0, cited.1)
        ]
      ]

  Ends-Grounded :
      (outcome : Outcome) (repairs : ℕ)
      → AreDistinct (scoped_context request)
      → Ends k settings request outcome repairs
      → Replies
          (λ reply. is_unvalidated reply ≡ false → Grounded reply.draft reply.response.citations)
          outcome
  unfolding fallback_response
  Ends-Grounded outcome repairs distinct (settled result draft n) =
      conclude-Grounded result draft n distinct
  Ends-Grounded outcome repairs distinct (degraded reason n) = λ h. fallback_draft-Grounded distinct
  Ends-Grounded outcome repairs distinct (failed error n) = tt
  Ends-Grounded outcome repairs distinct (stopped n) = tt

  -- Where the items of the context have different identifiers, every reply but the one to a
  -- comparison that could not be validated carries exactly the citations of its draft, and
  -- `validate_citations` accepts that draft; the fallbacks' replies are among them.
  pub retrieval_response-Grounded :
      (reply : Reply)
      → AreDistinct (scoped_context request)
      → (retrieval_response k settings request).0 ≡ replied reply
      → is_unvalidated reply ≡ false
      → Grounded reply.draft reply.response.citations
  unfolding insufficient_response fallback_response
  retrieval_response-Grounded reply distinct answered grounded =
      let P : Reply → Type 0 =
        λ r. is_unvalidated r ≡ false → Grounded r.draft r.response.citations in
      elim (retrieval_response-Ran k settings request) [
        | inl e ↦
            let h : Replies P (retrieval_response k settings request).0 =
              rw e (λ g. claimless-valid distinct) in
            subst (Replies P) answered h grounded
        | inr (inl e) ↦
            let h : Replies P (retrieval_response k settings request).0 =
              rw e (λ g. fallback_draft-Grounded distinct) in
            subst (Replies P) answered h grounded
        | inr (inr (room, (repairs, same, allowed, ends))) ↦
            subst (Replies P) answered
              (Ends-Grounded (retrieval_response k settings request).0 repairs distinct ends)
              grounded
      ]

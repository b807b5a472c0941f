-- ===== src/Llm/Response/Verified.antt =====
-- What holds of an answer that the provider drafted.
use enterprise_ai_knowledge.Llm.Response.Generation.Ends.{
  retrieval_response-Ran, Ends, settled, degraded, failed, stopped,
}
use enterprise_ai_knowledge.Common.{
  subst, Bool, take, inr, inl, ap, Bool-cases, ◌∙◌, sym, not, flat_map, false, arith, ◌++◌, ◌≡◌,
  ◌∷◌, ℕ, true, refl, map, is_empty, contains, all_of, [], Text, List, list_eq, nat_eq,
}
use enterprise_ai_knowledge.Llm.Identifiers.{
  validate_and_repair_response_identifiers, requirement_errors, validate_identifier_alignment,
}
use enterprise_ai_knowledge.Llm.Citations.{
  validate_citations, identifier_uncited, CitationError, EvidenceContextItem,
  CitationValidationResult, VerifiedCitation,
}
use enterprise_ai_knowledge.Llm.Comparison.{
  validate_comparison_draft, append_validation_errors, require_citations,
}
use enterprise_ai_knowledge.Llm.Drafts.{render_draft, Requirements, intersects, GroundedAnswerDraft}
use enterprise_ai_knowledge.Llm.Response.{
  LlmGenerationResult, Reply, identifier_evidence_ids, scoped_context, required_evidence_ids,
  ResponseRequest, LlmSettings, Collaborators,
}
use enterprise_ai_knowledge.Llm.Citations.Verified.{
  all_of-ap, is_empty-append, is_empty-flat_map, error_if-is_empty,
}
use enterprise_ai_knowledge.Llm.Response.Checks.{
  comparison_fallback_response, fallback_response, insufficient_response, cited_validation,
  check_draft,
}
use enterprise_ai_knowledge.Llm.Response.Stricter.{
  validate_identifier_alignment-Stricter, require_citations-Stricter,
  validate_comparison_draft-Stricter, append_validation_errors-Stricter,
  validate_citations-Consistent,
}
use enterprise_ai_knowledge.Llm.Response.Generation.{replied, Outcome, retrieval_response, conclude}
use enterprise_ai_knowledge.Llm.Response.Bounds.{Replies}

abbrev pub markers : List VerifiedCitation → List ℕ
markers citations = map (λ (c : VerifiedCitation). c.marker) citations

require_citations-all :
    (v : CitationValidationResult) (ids : List ℕ)
    → (require_citations v ids).valid ≡ true
    → all_of (contains (markers v.citations)) ids ≡ true
unfolding require_citations
require_citations-all v [] h = refl
require_citations-all v (id ∷ ids) h = ground arith

intersects-nil : (cited : List ℕ) → intersects cited [] ≡ false
intersects-nil [] = refl
intersects-nil (c ∷ cited) = intersects-nil cited

requirement_errors-intersects :
    (cited : List ℕ) (r : Text × List ℕ)
    → is_empty (requirement_errors cited r) ≡ intersects cited r.1
unfolding requirement_errors
requirement_errors-intersects cited (identifier, []) = sym (intersects-nil cited)
requirement_errors-intersects cited (identifier, id ∷ ids) =
    error_if-is_empty (not (intersects cited (id ∷ ids))) (identifier_uncited identifier)
    ∙ ground arith

middle-is_empty :
    (xs ys zs : List CitationError) → is_empty (xs ++ (ys ++ zs)) ≡ true → is_empty ys ≡ true
middle-is_empty xs ys zs h = ground (arith, is_empty-append xs (ys ++ zs), is_empty-append ys zs)

validate_identifier_alignment-all :
    (draft : GroundedAnswerDraft) (v : CitationValidationResult)
    (context : List EvidenceContextItem) (requirements : Requirements)
    → (validate_identifier_alignment draft v context requirements).valid ≡ true
    → all_of (λ (r : Text × List ℕ). intersects (markers v.citations) r.1) requirements ≡ true
unfolding validate_identifier_alignment
validate_identifier_alignment-all draft v context [] h = refl
validate_identifier_alignment-all draft v context (r ∷ rest) h =
    let found =
      is_empty-flat_map (requirement_errors (markers v.citations)) (r ∷ rest)
      ∙ all_of-ap _ _ (requirement_errors-intersects (markers v.citations)) (r ∷ rest) in
    sym found
    ∙ middle-is_empty v.errors (flat_map (requirement_errors (markers v.citations)) (r ∷ rest)) _ h

module _ (k : Collaborators) (settings : LlmSettings) (request : ResponseRequest) where
  -- What `validate_citations` says of a draft.
  abbrev pub cited_by : GroundedAnswerDraft → CitationValidationResult
  cited_by draft =
      validate_citations draft.claims (scoped_context request) request.principal
        settings.llm_max_citations k.expected_build

  -- Of a draft that was checked, if it is valid: `validate_citations` accepts it and made the
  -- citations, among which is all evidence that is required, and some for each identifier.
  abbrev pub Cited : GroundedAnswerDraft → List VerifiedCitation → Type 0
  Cited draft citations =
      ((cited_by draft).valid ≡ true)
      × (citations ≡ (cited_by draft).citations)
      × (all_of (contains (markers citations)) (required_evidence_ids request) ≡ true)
      × (all_of (λ (r : Text × List ℕ). intersects (markers citations) r.1)
            (identifier_evidence_ids request)
          ≡ true)

  pub check_draft-Cited :
      (draft : GroundedAnswerDraft)
      → (check_draft k settings request draft).validation.valid ≡ true
      → Cited
          (check_draft k settings request draft).draft
          (check_draft k settings request draft).validation.citations
  unfolding check_draft cited_validation
  check_draft-Cited draft h =
      let repaired =
        validate_and_repair_response_identifiers k.repair_text k.sorted draft
          (identifier_evidence_ids request) in
      let base = cited_by repaired.draft in
      let appended = append_validation_errors base repaired.errors in
      let compared =
        (validate_comparison_draft k.comparison_rules repaired.draft appended
          request.comparison_evidence_ids request.comparison_shared_facets).0 in
      let required = require_citations compared (required_evidence_ids request) in
      let aligned =
        validate_identifier_alignment repaired.draft required (scoped_context request)
          (identifier_evidence_ids request) in
      let s0 =
        validate_citations-Consistent repaired.draft.claims (scoped_context request)
          request.principal settings.llm_max_citations k.expected_build in
      let s1 = append_validation_errors-Stricter base repaired.errors s0 in
      let s2 =
        validate_comparison_draft-Stricter k.comparison_rules repaired.draft appended
          request.comparison_evidence_ids request.comparison_shared_facets s1.2 in
      let s3 = require_citations-Stricter compared (required_evidence_ids request) s2.2 in
      let s4 =
        validate_identifier_alignment-Stricter repaired.draft required (scoped_context request)
          (identifier_evidence_ids request) s3.2 in
      let aligned_valid : aligned.valid ≡ true = h in
      let required_valid : required.valid ≡ true = ground arith in
      let compared_valid : compared.valid ≡ true = ground arith in
      let appended_valid : appended.valid ≡ true = ground arith in
      (
        ground (arith, s1.1, appended_valid),
        s4.0 ∙ s3.0 ∙ s2.0 ∙ s1.0,
        ap (λ c. all_of (contains (markers c)) (required_evidence_ids request)) (s4.0 ∙ s3.0)
            ∙ require_citations-all compared (required_evidence_ids request) required_valid,
        ap
              (λ c.
                all_of (λ (r : Text × List ℕ). intersects (markers c) r.1)
                  (identifier_evidence_ids request))
              s4.0
            ∙ validate_identifier_alignment-all repaired.draft required (scoped_context request)
                (identifier_evidence_ids request) aligned_valid,
      )

  -- A reply that is no fallback is cited, and is its draft as it is rendered, which breaks no rule.
  abbrev pub Verified : Reply → Type 0
  Verified reply =
      Cited reply.draft reply.response.citations
      × (k.has_policy_violations (render_draft k.model_text k.strip_right reply.draft) ≡ false)
      × (reply.response.answer_text
          ≡ take settings.llm_max_answer_characters
              (render_draft k.model_text k.strip_right reply.draft))

  abbrev is_fallback : Reply → Bool
  is_fallback reply = reply.response.deterministic_fallback_used

  conclude-Verified :
      (result : LlmGenerationResult) (draft : GroundedAnswerDraft) (repairs : ℕ)
      → is_fallback
          (conclude k settings request result (check_draft k settings request draft) repairs)
        ≡ false
      → Verified (conclude k settings request result (check_draft k settings request draft) repairs)
  unfolding conclude fallback_response comparison_fallback_response
  conclude-Verified result draft repairs h =
      let checked = check_draft k settings request draft in
      elim (Bool-cases checked.validation.valid) [
        | inr invalid ↦ absurd (ground arith)
        | inl valid ↦
            elim (Bool-cases
              (k.has_policy_violations (render_draft k.model_text k.strip_right checked.draft))) [
                | inl violated ↦ absurd (ground arith)
                | inr clean ↦
                    simp (valid, clean, conclude) (check_draft-Cited draft valid, refl, refl)
              ]
      ]

  Ends-Verified :
      (outcome : Outcome) (repairs : ℕ)
      → Ends k settings request outcome repairs
      → Replies (λ reply. is_fallback reply ≡ false → Verified reply) outcome
  unfolding fallback_response
  Ends-Verified outcome repairs (settled result draft n) = conclude-Verified result draft n
  Ends-Verified outcome repairs (degraded reason n) = λ h. absurd (ground arith)
  Ends-Verified outcome repairs (failed error n) = tt
  Ends-Verified outcome repairs (stopped n) = tt

  -- An answer that is not marked as a deterministic fallback carries exactly the citations of its
  -- draft, which `validate_citations` accepts: they name all evidence that the request requires and
  -- some for every identifier of the question; its text is the rendered draft, cut at the limit, and
  -- the draft as it is rendered violates no policy.
  pub retrieval_response-Verified :
      (reply : Reply)
      → (retrieval_response k settings request).0 ≡ replied reply
      → reply.response.deterministic_fallback_used ≡ false
      → Verified reply
  unfolding insufficient_response fallback_response
  retrieval_response-Verified reply answered normal =
      elim (retrieval_response-Ran k settings request) [
        | inl e ↦ absurd (ground arith)
        | inr (inl e) ↦ absurd (ground arith)
        | inr (inr (room, (repairs, same, allowed, ends))) ↦
            let h = Ends-Verified (retrieval_response k settings request).0 repairs ends in
            subst (Replies (λ r. is_fallback r ≡ false → Verified r)) answered h normal
      ]

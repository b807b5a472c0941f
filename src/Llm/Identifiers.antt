-- ===== src/Llm/Identifiers.antt =====
-- backend/src/enterprise_ai/llm/identifier_validator.py, and `validate_identifier_alignment` of
-- llm/citation_validator.py. The substitution of the identifiers in a text, which is a regular
-- expression's, and the sorting of texts are parameters; the count of the repairs is left out.
use enterprise_ai_knowledge.Common.{
  map, ◌∷◌, ℕ, ◌||◌, zero, suc, not, ltb, length, leb, keep_if, is_empty, insert, flat_map,
  if◌then◌else◌, contains, codes, any_of, all_of, [], Text, List, ◌++◌, ◌+◌, ◌&&◌, list_eq, nat_eq,
}
use enterprise_ai_knowledge.Llm.Citations.{
  VerifiedCitation, identifier_uncited, off_target_evidence, EvidenceContextItem,
  CitationValidationResult, error_if, no_identifier_evidence, CitationError, GroundedClaim,
}
use enterprise_ai_knowledge.Llm.Drafts.{
  intersects, unique_errors, Requirements, GroundedAnswerDraft, join_texts,
}

-- The repaired text, the identifiers that are in it, and whether each other one-like token is an error.
pub record RepairedText : Type 0 where
  pub text : Text
  pub identifiers : List Text
  pub unapproved : ℕ

-- `IdentifierTextValidation`
pub record IdentifierTextValidation : Type 0 where
  pub draft : GroundedAnswerDraft
  pub errors : List CitationError

abbrev pub replicate : ℕ → CitationError → List CitationError
replicate zero e = []
replicate (suc n) e = e ∷ replicate n e

-- `{identifier: frozenset(model_ids) for identifier, model_ids in requirements}`
unfoldable pub evidence_from : Requirements → Requirements → Requirements
evidence_from evidence [] = evidence
evidence_from evidence ((identifier, ids) ∷ rest) =
    evidence_from (insert identifier ids evidence) rest

abbrev pub supported : Requirements → List Text
supported evidence =
    map (λ (r : Text × List ℕ). r.0) (keep_if (λ (r : Text × List ℕ). not (is_empty r.1)) evidence)

-- The sentence with the identifiers that the summary lacks.
unfoldable pub scope_prefix : List Text → Text
scope_prefix missing =
    codes "Requested enterprise identifier"
    ++ ((if ltb 1 (length missing) then codes "s" else [])
        ++ (codes ": " ++ (join_texts (codes ", ") missing ++ codes ".")))

module _ (repair_text : Text → List Text → RepairedText) (sorted : List Text → List Text) where
  -- The claim as it is repaired, with its errors.
  unfoldable pub repair_claim : Requirements → GroundedClaim → GroundedClaim × List CitationError
  repair_claim evidence claim =
      let repaired = repair_text claim.text (supported evidence) in
      let aligned =
        map (λ (r : Text × List ℕ). r.0)
          (keep_if (λ (r : Text × List ℕ). intersects claim.supporting_evidence_ids r.1)
            evidence) in
      (
        record claim { text = repaired.text },
        replicate repaired.unapproved CitationError.unapproved_identifier
            ++ error_if (not (all_of (λ i. contains aligned i) repaired.identifiers))
                CitationError.off_target_identifier,
      )

  -- The summary with the identifiers that it lacks before it, where they fit, and whether they do.
  unfoldable pub complete_summary : List Text → Text → Text × List CitationError
  complete_summary missing summary =
      let prefix = scope_prefix missing in
      if is_empty missing
      then (summary, [])
      else if leb (length prefix + 1 + length summary) 8000
      then (prefix ++ 32 ∷ summary, [])
      else (summary, CitationError.identifier_absent ∷ [])

  unfoldable pub validate_and_repair_response_identifiers :
      GroundedAnswerDraft → Requirements → IdentifierTextValidation
  validate_and_repair_response_identifiers draft [] = record { draft = draft; errors = [] }
  validate_and_repair_response_identifiers draft (r ∷ requirements) =
      let evidence = evidence_from [] (r ∷ requirements) in
      let repaired = repair_text draft.answer_summary (supported evidence) in
      let claims = map (repair_claim evidence) draft.claims in
      let missing =
        sorted (keep_if (λ i. not (contains repaired.identifiers i)) (supported evidence)) in
      let (summary, absent) = complete_summary missing repaired.text in
      record {
        draft = record draft {
          answer_summary = summary;
          claims = map (λ (c : GroundedClaim × List CitationError). c.0) claims;
        };
        errors = unique_errors (
            replicate repaired.unapproved CitationError.unapproved_identifier
            ++ (flat_map (λ (c : GroundedClaim × List CitationError). c.1) claims ++ absent));
      }

-- The error of one identifier's requirement.
unfoldable pub requirement_errors : List ℕ → Text × List ℕ → List CitationError
requirement_errors cited (identifier, ids) =
    if is_empty ids
    then no_identifier_evidence identifier ∷ []
    else error_if (not (intersects cited ids)) (identifier_uncited identifier)

-- The error of a factual claim with evidence of no identifier that was asked for.
unfoldable pub target_errors : List ℕ → List ℕ → GroundedClaim → List CitationError
target_errors allowed known claim =
    error_if
      (claim.factual
        && any_of (λ id. not (contains allowed id) || not (contains known id))
            claim.supporting_evidence_ids)
      (off_target_evidence claim.claim_id)

unfoldable pub validate_identifier_alignment :
    GroundedAnswerDraft
    → CitationValidationResult
    → List EvidenceContextItem
    → Requirements
    → CitationValidationResult
validate_identifier_alignment draft validation context [] = validation
validate_identifier_alignment draft validation context (r ∷ rest) =
    let requirements = r ∷ rest in
    let cited = map (λ (c : VerifiedCitation). c.marker) validation.citations in
    let allowed = flat_map (λ (r : Text × List ℕ). r.1) requirements in
    let known = map (λ (i : EvidenceContextItem). i.model_id) context in
    let errors =
      validation.errors
      ++ (flat_map (requirement_errors cited) requirements
          ++ flat_map (target_errors allowed known) draft.claims) in
    record validation { valid = is_empty errors; errors = errors }

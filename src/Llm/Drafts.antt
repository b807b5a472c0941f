-- ===== src/Llm/Drafts.antt =====
-- The answer that a model drafts (backend/src/enterprise_ai/llm/models.py), the requirements that it
-- is held to, and `render_draft` of llm/response_service.py.
use enterprise_ai_knowledge.Common.{
  ◌∷◌, ℕ, map, flat_map, if◌then◌else◌, contains, any_of, [], Text, List, Bool, ◌==◌, ◌++◌, ◌&&◌,
  list_eq, nat_eq,
}
use enterprise_ai_knowledge.Llm.Citations.{
  identifier_uncited, no_identifier_evidence, off_target_evidence, invalid_lines, stale,
  unauthorized, unknown, uncited, GroundedClaim, CitationError,
}
use enterprise_ai_knowledge.Graph.Reducers.{add_unique}

pub record GroundedAnswerDraft : Type 0 where
  pub answer_summary : Text
  pub claims : List GroundedClaim
  pub warnings : List Text
  pub insufficient_evidence : Bool
  pub clarification_needed : Bool

-- An identifier or a dimension, with the model identifiers of the evidence that belongs to it.
abbrev pub Requirements : Type 0
Requirements = List (Text × List ℕ)

-- `bool(frozenset(a).intersection(b))`
abbrev pub intersects : List ℕ → List ℕ → Bool
intersects a b = any_of (λ x. contains b x) a

abbrev pub error_code : CitationError → ℕ × Text
error_code (uncited n) = (0, n ∷ [])
error_code (unknown n) = (1, n ∷ [])
error_code (unauthorized n) = (2, n ∷ [])
error_code (stale n) = (3, n ∷ [])
error_code (invalid_lines n) = (4, n ∷ [])
error_code CitationError.duplicate_ids = (5, [])
error_code CitationError.limit_exceeded = (6, [])
error_code (off_target_evidence n) = (7, n ∷ [])
error_code (no_identifier_evidence t) = (8, t)
error_code (identifier_uncited t) = (9, t)
error_code CitationError.unapproved_identifier = (10, [])
error_code CitationError.off_target_identifier = (11, [])
error_code CitationError.identifier_absent = (12, [])
error_code CitationError.dimension_uncited = (13, [])
error_code CitationError.dimension_uncovered = (14, [])
error_code CitationError.described_as_absent = (15, [])
error_code CitationError.facets_uncovered = (16, [])

abbrev pub same_error : CitationError → CitationError → Bool
same_error a b = ((error_code a).0 == (error_code b).0) && ((error_code a).1 == (error_code b).1)

-- `tuple(dict.fromkeys(errors))`
unfoldable pub unique_errors : List CitationError → List CitationError
unique_errors errors = add_unique same_error [] errors

-- `sep.join(texts)`
unfoldable pub join_texts : Text → List Text → Text
join_texts sep [] = []
join_texts sep (x ∷ []) = x
join_texts sep (x ∷ y ∷ rest) = x ++ (sep ++ join_texts sep (y ∷ rest))

-- `dict.fromkeys(ids)`, given those before.
unfoldable pub unique_ids : List ℕ → List ℕ → List ℕ
unique_ids seen [] = []
unique_ids seen (x ∷ rest) =
    let fresh = unique_ids (x ∷ seen) rest in
    if contains seen x then unique_ids seen rest else x ∷ fresh

abbrev pub paragraph_break : Text
paragraph_break = 10 ∷ 10 ∷ []

module _ (model_text : ℕ → Text) (strip_right : Text → Text) where
  -- `f"[{item}]"`
  abbrev pub marker : ℕ → Text
  marker id = 91 ∷ (model_text id ++ 93 ∷ [])

  unfoldable pub render_claim : GroundedClaim → Text
  render_claim claim =
      strip_right (claim.text ++ 32 ∷ flat_map marker (unique_ids [] claim.supporting_evidence_ids))

  -- `render_draft`
  unfoldable pub render_draft : GroundedAnswerDraft → Text
  render_draft draft =
      join_texts paragraph_break (draft.answer_summary ∷ map render_claim draft.claims)

-- ===== src/Llm/Comparison.antt =====
-- The checks of a drafted comparison in backend/src/enterprise_ai/llm/response_service.py. The
-- normalization of a text and of a dimension's terms, and the search for a phrase that denies the
-- evidence, are parameters: they are regular expressions and the folding of case.
pub mod Terminating
use enterprise_ai_knowledge.Common.{
  map, ◌∷◌, ℕ, ◌||◌, suc, not, length, keep_if, is_empty, if◌then◌else◌, contains, any_of, all_of,
  [], Text, List, Bool, ◌==◌, ◌++◌, ◌&&◌, list_eq, nat_eq, codes, false,
}
use enterprise_ai_knowledge.Llm.Citations.{
  CitationError, CitationValidationResult, VerifiedCitation, GroundedClaim, error_if,
}
use enterprise_ai_knowledge.Llm.Drafts.{
  GroundedAnswerDraft, Requirements, intersects, join_texts, unique_errors,
}
use enterprise_ai_knowledge.Graph.Routing.{is_in}
use enterprise_ai_knowledge.Llm.Matching.{assign_distinct_claims}

abbrev pub months : List Text
months =
    codes "january"
    ∷ codes "february"
    ∷ codes "march"
    ∷ codes "april"
    ∷ codes "may"
    ∷ codes "june"
    ∷ codes "july"
    ∷ codes "august"
    ∷ codes "september"
    ∷ codes "october"
    ∷ codes "november"
    ∷ codes "december"
    ∷ []

abbrev pub minor_words : List Text
minor_words = codes "in" ∷ codes "the" ∷ codes "of" ∷ codes "for" ∷ []

-- What the model takes of the texts: a text folded and without hyphens, without underscores too, the
-- words of a text, the test that a word is a number, and the phrases that deny the evidence.
pub record ComparisonRules : Type 0 where
  pub folded : Text → Text
  pub folded_label : Text → Text
  pub words : Text → List Text
  pub is_digits : Text → Bool
  pub false_evidence_absence : Text → Bool

unfoldable pub require_citations : CitationValidationResult → List ℕ → CitationValidationResult
require_citations validation required_ids =
    let cited = map (λ (c : VerifiedCitation). c.marker) validation.citations in
    if not validation.valid || is_empty required_ids || all_of (contains cited) required_ids
    then validation
    else record validation {
      valid = false;
      errors = validation.errors ++ CitationError.dimension_uncited ∷ [];
    }

unfoldable pub append_validation_errors :
    CitationValidationResult → List CitationError → CitationValidationResult
append_validation_errors validation errors =
    if is_empty errors
    then validation
    else record validation { valid = false; errors = unique_errors (validation.errors ++ errors) }

-- The dimensions whose place, from the given one on, is not covered.
unfoldable pub uncovered : List ℕ → ℕ → Requirements → List Text
uncovered covered index [] = []
uncovered covered index ((dimension, ids) ∷ rest) =
    let others = uncovered covered (suc index) rest in
    if contains covered index then others else dimension ∷ others

-- The places of the claims, from the given one on, that satisfy a test.
unfoldable pub places : (GroundedClaim → Bool) → ℕ → List GroundedClaim → List ℕ
places test index [] = []
places test index (claim ∷ rest) =
    let others = places test (suc index) rest in if test claim then index ∷ others else others

module _ (rules : ComparisonRules) where
  unfoldable pub claim_mentions_dimension : Text → Text → Bool
  claim_mentions_dimension text dimension =
      let claim = rules.folded text in
      let terms = rules.words (rules.folded dimension) in
      let temporal = keep_if (λ t. contains months t || rules.is_digits t) terms in
      let subject =
        keep_if
          (λ t. not (contains months t) && not (rules.is_digits t) && not (contains minor_words t))
          terms in
      all_of (λ t. is_in t claim) temporal
      && (is_empty subject || any_of (λ t. is_in t claim) subject)

  unfoldable pub text_supports_facet : Text → Text → Bool
  text_supports_facet text facet =
      let normalized_text = rules.folded_label text in
      let normalized_facet = rules.folded_label facet in
      if normalized_facet == codes "message accumulation"
      then is_in (codes "accumulat") normalized_text
      else is_in normalized_facet normalized_text

  -- The claims that may cover each dimension.
  unfoldable pub dimension_candidates : List GroundedClaim → Requirements → List (List ℕ)
  dimension_candidates factual_claims requirements =
      map
        (λ (r : Text × List ℕ).
          places
            (λ claim.
              intersects claim.supporting_evidence_ids r.1
              && claim_mentions_dimension claim.text r.0)
            0 factual_claims)
        requirements

  unfoldable pub is_falsely_unsupported : GroundedAnswerDraft → Bool
  is_falsely_unsupported draft =
      draft.insufficient_evidence
      || draft.clarification_needed
      || rules.false_evidence_absence (
          join_texts (32 ∷ []) (
            draft.answer_summary
            ∷ (map (λ (c : GroundedClaim). c.text) draft.claims ++ draft.warnings)))

  unfoldable pub is_comparison_claim : Requirements → List Text → GroundedClaim → Bool
  is_comparison_claim requirements shared_facets claim =
      all_of (λ (r : Text × List ℕ). intersects claim.supporting_evidence_ids r.1) requirements
      && all_of (text_supports_facet claim.text) shared_facets

  -- `_validate_comparison_draft`: the validation, and the dimensions that it names.
  unfoldable pub validate_comparison_draft :
      GroundedAnswerDraft
      → CitationValidationResult
      → Requirements
      → List Text
      → CitationValidationResult × List Text
  validate_comparison_draft draft validation [] shared_facets = (validation, [])
  validate_comparison_draft draft validation (r ∷ rest) shared_facets =
      let requirements = r ∷ rest in
      let factual_claims = keep_if (λ (c : GroundedClaim). c.factual) draft.claims in
      let candidates = dimension_candidates factual_claims requirements in
      let assigned = assign_distinct_claims (length factual_claims) candidates in
      let missing = uncovered assigned 0 requirements in
      let comparison_claim_valid =
        is_empty shared_facets
        || any_of (is_comparison_claim requirements shared_facets) factual_claims in
      let errors =
        validation.errors
        ++ (error_if (not (is_empty missing)) CitationError.dimension_uncovered
            ++ (error_if (is_falsely_unsupported draft) CitationError.described_as_absent
                ++ error_if (not comparison_claim_valid) CitationError.facets_uncovered)) in
      let unvalidated =
        if not (is_empty missing)
        then missing
        else if not comparison_claim_valid
        then codes "shared comparison conclusion" ∷ []
        else map (λ (r : Text × List ℕ). r.0) requirements in
      if is_empty errors
      then (validation, [])
      else (record validation { valid = false; errors = errors }, unvalidated)

-- ===== src/Llm/Citations.antt =====
-- backend/src/enterprise_ai/llm/citation_validator.py: `validate_citations`. The manifest's build
-- fingerprint is an argument; of a context item and of a citation the texts that are only copied
-- (titles, sections, versions, dates) are left out.
pub mod Verified
use enterprise_ai_knowledge.Common.{
  Text, ◌∷◌, ℕ, some, not, none, ltb, lookup, length, is_empty, insert, flat_map, false,
  if◌then◌else◌, contains, [], List, Bool, ◌==◌, ◌++◌, ◌&&◌, list_eq, nat_eq,
}
use enterprise_ai_knowledge.Identity.{AccessLevel, Principal, level_eq}
use enterprise_ai_knowledge.Security.Authorization.{allowed_access_levels}

pub record EvidenceContextItem : Type 0 where
  pub model_id : ℕ
  pub evidence_id : ℕ
  pub chunk_id : ℕ
  pub document_id : ℕ
  pub source_line_start : ℕ
  pub source_line_end : ℕ
  pub access_level : AccessLevel
  pub build_fingerprint : ℕ

pub record GroundedClaim : Type 0 where
  pub claim_id : ℕ
  pub text : Text
  pub factual : Bool
  pub supporting_evidence_ids : List ℕ

pub record VerifiedCitation : Type 0 where
  pub marker : ℕ
  pub evidence_id : ℕ
  pub chunk_id : ℕ
  pub document_id : ℕ
  pub source_line_start : ℕ
  pub source_line_end : ℕ
  pub access_level : AccessLevel

-- The messages, by the claim or the identifier that they name: those of this file, of
-- identifier_validator.py, and of the validators of response_service.py.
pub data CitationError : Type 0 where
  uncited unknown unauthorized stale invalid_lines : ℕ → CitationError
  duplicate_ids limit_exceeded : CitationError
  off_target_evidence : ℕ → CitationError
  no_identifier_evidence identifier_uncited : Text → CitationError
  unapproved_identifier off_target_identifier identifier_absent : CitationError
  dimension_uncited dimension_uncovered described_as_absent facets_uncovered : CitationError

pub record CitationValidationResult : Type 0 where
  pub valid : Bool
  pub errors : List CitationError
  pub citations : List VerifiedCitation

-- `{item.model_id: item for item in context}`
unfoldable pub mapping_from :
    List (ℕ × EvidenceContextItem) → List EvidenceContextItem → List (ℕ × EvidenceContextItem)
mapping_from mapping [] = mapping
mapping_from mapping (item ∷ rest) = mapping_from (insert item.model_id item mapping) rest

abbrev pub error_if : Bool → CitationError → List CitationError
error_if test error = if test then error ∷ [] else []

unfoldable pub citation_from_context : EvidenceContextItem → VerifiedCitation
citation_from_context item = record {
  marker = item.model_id;
  evidence_id = item.evidence_id;
  chunk_id = item.chunk_id;
  document_id = item.document_id;
  source_line_start = item.source_line_start;
  source_line_end = item.source_line_end;
  access_level = item.access_level;
}

module _ (mapping : List (ℕ × EvidenceContextItem)) where
  -- The identifiers that are used, each once, in the order of their first use.
  unfoldable pub used_from : List ℕ → List ℕ → List ℕ
  used_from used [] = used
  used_from used (model_id ∷ rest) =
      let next : List ℕ = elim (lookup model_id mapping) [
        | none ↦ used
        | some item ↦ if contains used model_id then used else used ++ model_id ∷ []
      ] in
      used_from next rest

  unfoldable pub used_ids : List GroundedClaim → List ℕ
  used_ids claims =
      used_from [] (flat_map (λ (c : GroundedClaim). c.supporting_evidence_ids) claims)

  unfoldable pub cited : List ℕ → List VerifiedCitation
  cited [] = []
  cited (model_id ∷ rest) = elim (lookup model_id mapping) [
    | none ↦ cited rest
    | some item ↦ citation_from_context item ∷ cited rest
  ]

module _ (allowed_levels : List AccessLevel) (expected_build : ℕ)
    (mapping : List (ℕ × EvidenceContextItem)) where
  -- The errors of one evidence identifier of a claim.
  unfoldable pub id_errors : ℕ → ℕ → List CitationError
  id_errors claim_id model_id = elim (lookup model_id mapping) [
    | none ↦ unknown claim_id ∷ []
    | some item ↦
        error_if (not (contains allowed_levels item.access_level)) (unauthorized claim_id)
        ++ (error_if (not (item.build_fingerprint == expected_build)) (stale claim_id)
            ++ error_if (ltb item.source_line_end item.source_line_start) (invalid_lines claim_id))
  ]

  -- The errors of one claim.
  unfoldable pub claim_errors : GroundedClaim → List CitationError
  claim_errors claim =
      error_if (claim.factual && is_empty claim.supporting_evidence_ids) (uncited claim.claim_id)
      ++ flat_map (id_errors claim.claim_id) claim.supporting_evidence_ids

  -- `validate_citations`, behind the test of the mapping.
  unfoldable pub validated : List GroundedClaim → ℕ → CitationValidationResult
  validated claims maximum_citations =
      let used = used_ids mapping claims in
      let errors =
        flat_map claim_errors claims
        ++ error_if (ltb maximum_citations (length used)) limit_exceeded in
      record { valid = is_empty errors; errors = errors; citations = cited mapping used }

unfoldable pub validate_citations :
    List GroundedClaim
    → List EvidenceContextItem
    → Principal
    → (maximum_citations expected_build : ℕ) → CitationValidationResult
validate_citations claims context principal maximum_citations expected_build =
    let mapping = mapping_from [] context in
    if not (length mapping == length context)
    then record { valid = false; errors = duplicate_ids ∷ []; citations = [] }
    else validated (allowed_access_levels principal) expected_build mapping claims maximum_citations

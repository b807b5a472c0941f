-- ===== src/Graph/Nodes/Retrieval.antt =====
-- graph/nodes.py, `simple_retrieval` and `validate_evidence`.
use enterprise_ai_knowledge.Graph.Services.{Retrieval, retrieved}
use enterprise_ai_knowledge.Common.{
  nat_eq, ◌∷◌, ℕ, ◌||◌, true, take, some, not, none, min, ltb, leb, is_empty, if◌then◌else◌,
  contains, [], Text, Option, List, Bool, ◌==◌, ◌+◌, ◌&&◌,
}
use enterprise_ai_knowledge.Research.Aggregation.{HybridEvidence, Source}
use enterprise_ai_knowledge.Graph.Services.{content, Body, Services}
use enterprise_ai_knowledge.Identity.{role_eq, level_eq, Principal}
use enterprise_ai_knowledge.Graph.State.{ErrorCode, ValidationResult, no_update, GraphState, Update}
use enterprise_ai_knowledge.Security.Authorization.{allowed_access_levels}
use enterprise_ai_knowledge.Graph.Topology.{Node}
use enterprise_ai_knowledge.Graph.Reducers.{EventStatus}
use enterprise_ai_knowledge.Vocabulary.{ProcessingStatus}

unfoldable pub simple_retrieval : Services → GraphState → Body
simple_retrieval services s =
    let started = content Node.simple_retrieval "retrieval.started" EventStatus.started in
    elim s.normalized_query [
      | none ↦ (started ∷ [], none)
      | some query ↦
          elim (services.retrieve s.principal query
            (min s.requested_top_k services.max_evidence_items)) [
              | Retrieval.unavailable ↦ (
                started ∷ [],
                some (record no_update {
                  failure = some true;
                  errors = some (
                      record { code = ErrorCode.retrieval_failed; node = Node.simple_retrieval }
                      ∷ []);
                  visited_nodes = some (Node.simple_retrieval ∷ []);
                }),
              )
              | Retrieval.crashed ↦ (started ∷ [], none)
              | retrieved evidence warnings partial ↦ (
                started
                    ∷ content Node.simple_retrieval "retrieval.completed" EventStatus.completed
                    ∷ [],
                some (record no_update {
                  retrieved_evidence = some (take services.max_evidence_items evidence);
                  warnings = some (take services.max_warnings warnings);
                  processing_status = some (
                      if partial
                      then ProcessingStatus.partial_success
                      else ProcessingStatus.running);
                  visited_nodes = some (Node.simple_retrieval ∷ []);
                  execution_step_count = some (s.execution_step_count + 1);
                }),
              )
            ]
    ]

-- The condition of the loop, negated: what is not rejected. The score is a natural number, and so
-- finite, and the identifiers have their type.
unfoldable pub is_valid_evidence :
    Services
    → Principal
    → (fingerprint : ℕ) (identifiers : List Text) (exact : List ℕ) → Source
    → Bool
is_valid_evidence services p fingerprint identifiers exact source =
    contains (allowed_access_levels p) source.access.access_level
    && contains source.access.allowed_roles p.identity.role
    && leb source.source_line_start source.source_line_end
    && (source.build_fingerprint == fingerprint)
    && not (services.is_untrusted source.text)
    && (is_empty identifiers || contains exact source.document_id)

-- The loop of `validate_evidence`, given the chunks that were seen: what is valid, and the number of
-- the rejected.
unfoldable pub valid_evidence :
    (Source → Bool) → List ℕ → List HybridEvidence → List HybridEvidence × ℕ
valid_evidence passes seen [] = ([], 0)
valid_evidence passes seen (item ∷ rest) =
    let accepted = not (contains seen item.evidence.chunk_id) && passes item.evidence in
    let (valid, rejected) =
      valid_evidence passes (if accepted then item.evidence.chunk_id ∷ seen else seen) rest in
    if accepted then (item ∷ valid, rejected) else (valid, rejected + 1)

-- The dictionary of `validate_evidence`; the number in the text of the warning is left out.
unfoldable pub evidence_update : List Text → List HybridEvidence × ℕ → Update
evidence_update identifiers (valid, rejected) =
    let missing = not (is_empty identifiers) && is_empty valid in
    record no_update {
      retrieved_evidence = some valid;
      warnings = some (
          if missing
          then "No authorized exact match found." ∷ []
          else if ltb 0 rejected
          then "Rejected unauthorized or malformed evidence items." ∷ []
          else []);
      validation_reports = some (
          record {
            result =
                if ltb 0 rejected || missing
                then ValidationResult.warning
                else ValidationResult.passed;
            code =
                if missing
                then "graph.evidence.exact_identifier_missing"
                else if is_empty identifiers
                then "graph.evidence.valid"
                else "graph.evidence.exact_identifier_matched";
          }
          ∷ []);
      visited_nodes = some (Node.validate_evidence ∷ []);
    }

-- The documents that the identifiers match, looked up only where there are some.
abbrev pub exact_ids : Services → List Text → Option (List ℕ)
exact_ids services identifiers =
    if is_empty identifiers then some [] else services.exact_document_ids identifiers

unfoldable pub validate_evidence : Services → GraphState → Body
validate_evidence services s = elim services.expected_fingerprint [
  | none ↦ ([], none)
  | some fingerprint ↦ elim (exact_ids services s.requested_identifiers) [
    | none ↦ ([], none)
    | some exact ↦ (
      content Node.validate_evidence "validation.completed" EventStatus.completed ∷ [],
      some (
          evidence_update s.requested_identifiers (
            valid_evidence
              (is_valid_evidence services s.principal fingerprint s.requested_identifiers exact) []
              s.retrieved_evidence)),
    )
  ]
]

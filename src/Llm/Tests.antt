-- ===== src/Llm/Tests.antt =====
-- Citations of an answer of two claims.
use enterprise_ai_knowledge.Common.{
  some, lookup, codes, Dict, All, ◌≡◌, ◌∷◌, ℕ, true, refl, length, leb, flat_map, false, all_of, [],
  List, ◌==◌, ◌&&◌, nat_eq,
}
use enterprise_ai_knowledge.Llm.Citations.{
  used_from, used_ids, id_errors, claim_errors, validated, mapping_from, GroundedClaim,
  EvidenceContextItem, validate_citations,
}
use enterprise_ai_knowledge.Identity.{UserRole, AccessLevel, Principal}
use enterprise_ai_knowledge.Llm.Citations.Verified.{validate_citations-is_grounded, is_grounded}
use enterprise_ai_knowledge.Security.Authorization.{allowed_access_levels}
use enterprise_ai_knowledge.Llm.Drafts.{Requirements}
use enterprise_ai_knowledge.Llm.Matching.{
  Recursion, candidates_of, try_claims, assign, assign_all, assign_distinct_claims,
}
use enterprise_ai_knowledge.Llm.Matching.Distinct.{assign_distinct_claims-Assigned, IsCandidate}
use enterprise_ai_knowledge.Llm.Comparison.{dimension_candidates, ComparisonRules}
use enterprise_ai_knowledge.Llm.Comparison.Terminating.{assign_distinct_claims-enough}

abbrev context_item : ℕ → EvidenceContextItem
context_item n = record {
  model_id = n;
  evidence_id = n;
  chunk_id = n;
  document_id = n;
  source_line_start = 1;
  source_line_end = 4;
  access_level = AccessLevel.public;
  build_fingerprint = 9;
}

abbrev drafted : List GroundedClaim
drafted =
    record { claim_id = 1; text = []; factual = true; supporting_evidence_ids = 1 ∷ 2 ∷ [] }
    ∷ record { claim_id = 2; text = []; factual = false; supporting_evidence_ids = [] }
    ∷ []

abbrev reader : Principal
reader = record {
  identity = record { user_id = 1; username = "u"; display_name = "U"; role = UserRole.viewer };
  permissions = [];
  authenticated_at = 0;
  expires_at = 10;
}

validate_citations_run :
    (validate_citations drafted (context_item 1 ∷ context_item 2 ∷ []) reader 5 9).valid ≡ true
unfolding validate_citations validated mapping_from claim_errors id_errors used_ids used_from
    allowed_access_levels flat_map
validate_citations_run = refl

validate_citations-is_grounded_example :
    (validate_citations drafted (context_item 1 ∷ context_item 2 ∷ []) reader 5 9).valid ≡ (
      (length (mapping_from [] (context_item 1 ∷ context_item 2 ∷ [])) == 2)
      && all_of
          (is_grounded (allowed_access_levels reader) 9 (context_item 1 ∷ context_item 2 ∷ []))
          drafted
      && leb (length (used_ids (mapping_from [] (context_item 1 ∷ context_item 2 ∷ [])) drafted)) 5)
validate_citations-is_grounded_example =
    validate_citations-is_grounded drafted (context_item 1 ∷ context_item 2 ∷ []) reader 5 9

-- The second dimension takes the claim that the first one had, which takes another.
matched : assign_distinct_claims 2 ((0 ∷ 1 ∷ []) ∷ (0 ∷ []) ∷ []) ≡ 0 ∷ 1 ∷ []
unfolding assign_distinct_claims assign_all assign try_claims candidates_of
matched = refl

assign_distinct_claims-Assigned_example :
    (assignments : Dict ℕ ℕ) × All
      (λ d.
        (claim : ℕ) × (lookup claim assignments ≡ some d)
        × IsCandidate ((0 ∷ 1 ∷ []) ∷ (0 ∷ []) ∷ []) d claim)
      (assign_distinct_claims 2 ((0 ∷ 1 ∷ []) ∷ (0 ∷ []) ∷ []))
assign_distinct_claims-Assigned_example =
    assign_distinct_claims-Assigned 2 ((0 ∷ 1 ∷ []) ∷ (0 ∷ []) ∷ [])

abbrev plain_rules : ComparisonRules
plain_rules = record {
  folded = λ t. t;
  folded_label = λ t. t;
  words = λ t. t ∷ [];
  is_digits = λ t. false;
  false_evidence_absence = λ t. false;
}

abbrev compared : Requirements
compared = (codes "a", 1 ∷ []) ∷ (codes "b", 2 ∷ []) ∷ []

-- At depth zero everything would count as covered; the covered dimensions are the same.
abbrev found_anything : Recursion
found_anything d state = (true, state)

assign_distinct_claims-enough_example :
    (assign_all
      (dimension_candidates plain_rules drafted compared)
      found_anything
      8
      0
      (dimension_candidates plain_rules drafted compared)
      []).0
    ≡ assign_distinct_claims 2 (dimension_candidates plain_rules drafted compared)
assign_distinct_claims-enough_example =
    assign_distinct_claims-enough plain_rules drafted compared found_anything 5

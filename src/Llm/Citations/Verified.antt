-- ===== src/Llm/Citations/Verified.antt =====
-- What a valid answer's citations are.
use enterprise_ai_knowledge.Common.{
  ltb, Bool-cases, ◌≡◌, ◌∷◌, ◌∙◌, ℕ, some, refl, not, none, lookup, length, leb, is_empty, inr, inl,
  flat_map, false, contains, arith, ap, all_of, [], Option-cases, Option, List, Bool, ◌==◌, ◌++◌,
  ◌&&◌, list_eq, nat_eq,
}
use enterprise_ai_knowledge.Identity.{Principal, AccessLevel, level_eq}
use enterprise_ai_knowledge.Llm.Citations.{
  limit_exceeded, used_ids, uncited, mapping_from, GroundedClaim, EvidenceContextItem, validated,
  error_if, CitationError, validate_citations, claim_errors, id_errors,
}
use enterprise_ai_knowledge.Security.Authorization.{allowed_access_levels}

pub is_empty-append :
    {A : Type 0} (xs ys : List A) → is_empty (xs ++ ys) ≡ (is_empty xs && is_empty ys)
is_empty-append [] ys = refl
is_empty-append (x ∷ xs) ys = refl

pub is_empty-flat_map :
    {A B : Type 0} (f : A → List B) (xs : List A)
    → is_empty (flat_map f xs) ≡ all_of (λ x. is_empty (f x)) xs
unfolding flat_map
is_empty-flat_map f [] = refl
is_empty-flat_map f (x ∷ xs) =
    is_empty-append (f x) (flat_map f xs) ∙ ap (λ b. is_empty (f x) && b) (is_empty-flat_map f xs)

pub all_of-ap :
    {A : Type 0} (p q : A → Bool) (same : (x : A) → p x ≡ q x) (xs : List A)
    → all_of p xs ≡ all_of q xs
all_of-ap p q same [] = refl
all_of-ap p q same (x ∷ xs) = rw (same x, all_of-ap p q same xs) refl

-- The item may be read by the principal, is of the current build, and has its lines in order.
abbrev pub is_citable : List AccessLevel → ℕ → Option EvidenceContextItem → Bool
is_citable levels build none = false
is_citable levels build (some item) =
    contains levels item.access_level
    && (item.build_fingerprint == build)
    && leb item.source_line_start item.source_line_end

-- A factual claim is supported, and every identifier that supports a claim is of a citable item.
abbrev pub is_grounded : List AccessLevel → ℕ → List EvidenceContextItem → GroundedClaim → Bool
is_grounded levels build context claim =
    not (claim.factual && is_empty claim.supporting_evidence_ids)
    && all_of (λ id. is_citable levels build (lookup id (mapping_from [] context)))
        claim.supporting_evidence_ids

id_errors-is_citable :
    (levels : List AccessLevel) (build : ℕ) (mapping : List (ℕ × EvidenceContextItem)) (c id : ℕ)
    → is_empty (id_errors levels build mapping c id) ≡ is_citable levels build (lookup id mapping)
unfolding id_errors
id_errors-is_citable levels build mapping c id = elim (Option-cases (lookup id mapping)) [
  | inl absent ↦ rw (absent, id_errors) refl
  | inr (item, found) ↦ rw (found, id_errors) (ground arith)
]

pub error_if-is_empty : (test : Bool) (e : CitationError) → is_empty (error_if test e) ≡ not test
error_if-is_empty test e = ground arith

claim_errors-is_grounded :
    (levels : List AccessLevel) (build : ℕ) (context : List EvidenceContextItem)
    (claim : GroundedClaim)
    → is_empty (claim_errors levels build (mapping_from [] context) claim)
      ≡ is_grounded levels build context claim
unfolding claim_errors
claim_errors-is_grounded levels build context claim =
    let m = mapping_from [] context in
    let ids = claim.supporting_evidence_ids in
    let bare = claim.factual && is_empty ids in
    is_empty-append (error_if bare (uncited claim.claim_id))
      (flat_map (id_errors levels build m claim.claim_id) ids)
    ∙ ap (λ b. b && is_empty (flat_map (id_errors levels build m claim.claim_id) ids))
        (error_if-is_empty bare (uncited claim.claim_id))
    ∙ ap (λ b. not bare && b)
        (is_empty-flat_map (id_errors levels build m claim.claim_id) ids
          ∙ all_of-ap _ _ (id_errors-is_citable levels build m claim.claim_id) ids)

not-ltb : (a b : ℕ) → not (ltb a b) ≡ leb b a
not-ltb a b = ground arith

-- An answer's citations are valid just when no two context items have one model identifier, every
-- factual claim is supported, every supporting identifier is of an item that the principal may read,
-- of the current build and with its lines in order, and no more items are used than allowed.
pub validate_citations-is_grounded :
    (claims : List GroundedClaim) (context : List EvidenceContextItem) (principal : Principal)
    (maximum_citations build : ℕ)
    → (validate_citations claims context principal maximum_citations build).valid ≡ (
        (length (mapping_from [] context) == length context)
        && all_of (is_grounded (allowed_access_levels principal) build context) claims
        && leb (length (used_ids (mapping_from [] context) claims)) maximum_citations)
unfolding validate_citations validated
validate_citations-is_grounded claims context principal maximum_citations build =
    let m = mapping_from [] context in
    let levels = allowed_access_levels principal in
    let used = length (used_ids m claims) in
    elim (Bool-cases (length m == length context)) [
      | inr e ↦ rw (e, validate_citations) refl
      | inl e ↦
          rw (e, validate_citations)
            (is_empty-append (flat_map (claim_errors levels build m) claims)
                (error_if (ltb maximum_citations used) limit_exceeded)
              ∙ ap (λ b. is_empty (flat_map (claim_errors levels build m) claims) && b)
                  (error_if-is_empty (ltb maximum_citations used) limit_exceeded
                    ∙ not-ltb maximum_citations used)
              ∙ ap (λ b. b && leb used maximum_citations)
                  (is_empty-flat_map (claim_errors levels build m) claims
                    ∙ all_of-ap _ _ (claim_errors-is_grounded levels build context) claims))
    ]

-- ===== src/Llm/Response/Stricter.antt =====
-- Each check of a draft keeps the citations and takes no error away.
use enterprise_ai_knowledge.Common.{
  ◌||◌, map, if◌then◌else◌, contains, any_of, all_of, Bool, ◌++◌, ◌≡◌, ◌∷◌, ◌∙◌, ℕ, refl, not,
  length, is_empty, inr, inl, false, arith, [], Text, List, Bool-cases, ◌==◌, ◌&&◌, list_eq, nat_eq,
}
use enterprise_ai_knowledge.Llm.Drafts.{
  same_error, Requirements, GroundedAnswerDraft, unique_errors,
}
use enterprise_ai_knowledge.Llm.Comparison.{
  ComparisonRules, require_citations, append_validation_errors, validate_comparison_draft,
}
use enterprise_ai_knowledge.Llm.Identifiers.{validate_identifier_alignment}
use enterprise_ai_knowledge.Llm.Citations.{
  VerifiedCitation, mapping_from, GroundedClaim, EvidenceContextItem, validated, CitationError,
  validate_citations, CitationValidationResult,
}
use enterprise_ai_knowledge.Identity.{Principal}
use enterprise_ai_knowledge.Llm.Citations.Verified.{is_empty-append}
use enterprise_ai_knowledge.Graph.Reducers.{add_unique}

abbrev pub Consistent : CitationValidationResult → Type 0
Consistent v = v.valid ≡ is_empty v.errors

-- The second result has the citations of the first and is valid only if the first is.
abbrev pub Stricter : CitationValidationResult → CitationValidationResult → Type 0
Stricter v w = (w.citations ≡ v.citations) × ((w.valid && not v.valid) ≡ false) × Consistent w

pub Stricter-trans : (u v w : CitationValidationResult) → Stricter u v → Stricter v w → Stricter u w
Stricter-trans u v w a b = (b.0 ∙ a.0, ground arith, b.2)

pub validate_citations-Consistent :
    (claims : List GroundedClaim) (context : List EvidenceContextItem) (principal : Principal)
    (maximum_citations build : ℕ)
    → Consistent (validate_citations claims context principal maximum_citations build)
unfolding validate_citations validated
validate_citations-Consistent claims context principal maximum_citations build =
    elim (Bool-cases (length (mapping_from [] context) == length context)) [
      | inr e ↦ rw (e, validate_citations) refl
      | inl e ↦ rw (e, validate_citations) refl
    ]

is_empty-any_of : {A : Type 0} (p : A → Bool) (xs : List A) → (any_of p xs && is_empty xs) ≡ false
is_empty-any_of p [] = refl
is_empty-any_of p (x ∷ xs) = ground arith

is_empty-add_unique :
    {A : Type 0} (same : A → A → Bool) (result items : List A)
    → is_empty (add_unique same result items) ≡ (is_empty result && is_empty items)
unfolding add_unique
is_empty-add_unique same result [] = ground arith
is_empty-add_unique same result (item ∷ rest) = elim (Bool-cases (any_of (same item) result)) [
  | inl e ↦
      rw (e, add_unique)
        (is_empty-add_unique same result rest ∙ ground (arith, is_empty-any_of (same item) result))
  | inr e ↦
      rw (e, add_unique)
        (is_empty-add_unique same (result ++ item ∷ []) rest
          ∙ ground (arith, is_empty-append result (item ∷ [])))
]

pub append_validation_errors-Stricter :
    (v : CitationValidationResult) (errors : List CitationError)
    → Consistent v
    → Stricter v (append_validation_errors v errors)
unfolding append_validation_errors unique_errors
append_validation_errors-Stricter v [] c = (refl, ground arith, c)
append_validation_errors-Stricter v (e ∷ errors) c = (
  refl,
  refl,
  ground (
    arith,
    is_empty-add_unique same_error [] (v.errors ++ e ∷ errors),
    is_empty-append v.errors (e ∷ errors),
  ),
)

pub require_citations-Stricter :
    (v : CitationValidationResult) (ids : List ℕ)
    → Consistent v
    → Stricter v (require_citations v ids)
unfolding require_citations
require_citations-Stricter v ids c =
    let cited = map (λ (x : VerifiedCitation). x.marker) v.citations in
    elim (Bool-cases (not v.valid || is_empty ids || all_of (contains cited) ids)) [
      | inl e ↦ simp (e, require_citations) (refl, ground arith, c)
      | inr e ↦
          simp (e, require_citations)
            (
              refl,
              refl,
              ground (arith, is_empty-append v.errors (CitationError.dimension_uncited ∷ [])),
            )
    ]

compared-Stricter :
    (v : CitationValidationResult) (errors : List CitationError) (unvalidated : List Text)
    → is_empty errors ≡ (v.valid && is_empty errors)
    → Consistent v
    → let checked : CitationValidationResult × List Text =
        (if is_empty errors
          then (v, [])
          else (record v { valid = false; errors = errors }, unvalidated)) in
      Stricter v checked.0
compared-Stricter v [] unvalidated h c = (refl, ground arith, c)
compared-Stricter v (e ∷ errors) unvalidated h c = (refl, refl, refl)

appended :
    (v : CitationValidationResult) (errors : List CitationError)
    → Consistent v
    → is_empty (v.errors ++ errors) ≡ (v.valid && is_empty (v.errors ++ errors))
appended v errors c = ground (arith, is_empty-append v.errors errors)

pub validate_comparison_draft-Stricter :
    (rules : ComparisonRules) (draft : GroundedAnswerDraft) (v : CitationValidationResult)
    (requirements : Requirements) (facets : List Text)
    → Consistent v
    → Stricter v (validate_comparison_draft rules draft v requirements facets).0
unfolding validate_comparison_draft
validate_comparison_draft-Stricter rules draft v [] facets c = (refl, ground arith, c)
validate_comparison_draft-Stricter rules draft v (r ∷ rest) facets c =
    compared-Stricter v _ _ (appended v _ c) c

appended-Stricter :
    (v : CitationValidationResult) (errors : List CitationError)
    → Consistent v
    → Stricter v (record v { valid = is_empty (v.errors ++ errors); errors = v.errors ++ errors })
appended-Stricter v errors c = (refl, ground (arith, appended v errors c), refl)

pub validate_identifier_alignment-Stricter :
    (draft : GroundedAnswerDraft) (v : CitationValidationResult)
    (context : List EvidenceContextItem) (requirements : Requirements)
    → Consistent v
    → Stricter v (validate_identifier_alignment draft v context requirements)
unfolding validate_identifier_alignment
validate_identifier_alignment-Stricter draft v context [] c = (refl, ground arith, c)
validate_identifier_alignment-Stricter draft v context (r ∷ rest) c = appended-Stricter v _ c

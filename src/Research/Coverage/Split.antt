-- ===== src/Research/Coverage/Split.antt =====
-- The covered and the missing dimensions are the two parts of the required ones.
use enterprise_ai_knowledge.Common.{list_eq, nat_eq}
use enterprise_ai_knowledge.Common.{
  nat_eq, ◌≡◌, ◌∷◌, ◌∙◌, ℕ, ◌||◌, true, sym, subst, refl, not, length, keep_if, is_empty, inr, inl,
  false, eq_refl, contains, arith, ap, all_of, [], Text, List, Eq, Bool-cases, Bool, All-imp, All,
  ◌==◌, ◌+◌, ◌&&◌,
}
use enterprise_ai_knowledge.Research.Aggregation.{HybridEvidence}
use enterprise_ai_knowledge.Research.Coverage.{
  status_of, Flags, is_covered, WorkerResult, ResearchPlan, assess_coverage, dimensions,
}
use enterprise_ai_knowledge.Graph.State.{CoverageStatus}

and_false : (a : Bool) → (a && false) ≡ false
and_false a = ground arith

or_true : (a b : Bool) → b ≡ true → (a || b) ≡ true
or_true a b h = ground arith

length-split :
    {A : Type 0} (p : A → Bool) (xs : List A)
    → length (keep_if p xs) + length (keep_if (λ x. not (p x)) xs) ≡ length xs
length-split p [] = omega arith
length-split p (x ∷ xs) = elim (Bool-cases (p x)) [
  | inl h ↦ rw h (omega (arith, length-split p xs))
  | inr h ↦ rw h (omega (arith, length-split p xs))
]

module _ {A : Type 0} ⦃e : Eq A⦄ (p : A → Bool) where
  contains-keep_if : (x : A) (xs : List A) → contains (keep_if p xs) x ≡ (contains xs x && p x)
  contains-keep_if x [] = refl
  contains-keep_if x (y ∷ ys) = elim (Bool-cases (x == y)) [
    | inl same ↦ elim (Bool-cases (p y)) [
      | inl here ↦
          let there : p x ≡ true = subst (λ z. p z ≡ true) (sym ((e.same_iff x y).0 same)) here in
          rw (here, same, there) refl
      | inr here ↦
          let there : p x ≡ false = subst (λ z. p z ≡ false) (sym ((e.same_iff x y).0 same)) here in
          rw (here, same, contains-keep_if x ys, there) (and_false (contains ys x))
    ]
    | inr other ↦ elim (Bool-cases (p y)) [
      | inl here ↦ rw (here, other, contains-keep_if x ys) refl
      | inr here ↦ rw (here, other, contains-keep_if x ys) refl
    ]
  ]

  rest-keep_if :
      (whole xs : List A)
      → All (λ x. contains whole x ≡ true) xs
      → keep_if (λ x. not (contains (keep_if p whole) x)) xs ≡ keep_if (λ x. not (p x)) xs
  rest-keep_if whole [] h = refl
  rest-keep_if whole (x ∷ xs) (h, known) =
      rw (contains-keep_if x whole, h, rest-keep_if whole xs known) refl

  All-contains : (xs : List A) → All (λ x. contains xs x ≡ true) xs
  All-contains [] = tt
  All-contains (x ∷ xs) = (
    rw (eq_refl x) refl,
    All-imp _ _ (λ y h. or_true (y == x) (contains xs y) h) xs (All-contains xs),
  )

  is_empty-keep_if : (xs : List A) → is_empty (keep_if (λ x. not (p x)) xs) ≡ all_of p xs
  is_empty-keep_if [] = refl
  is_empty-keep_if (x ∷ xs) = elim (Bool-cases (p x)) [
    | inl h ↦ rw h (is_empty-keep_if xs)
    | inr h ↦ rw h refl
  ]

abbrev pub is_sufficient : CoverageStatus → Bool
is_sufficient CoverageStatus.sufficient = true
is_sufficient status = false

status_of-sufficient :
    (flags : Flags) (evidence_count : ℕ) (missing : List Text)
    → is_sufficient (status_of flags evidence_count missing) ≡ (
        not flags.authorization_blocked
        && not flags.budget_exhausted
        && not flags.failed
        && not (evidence_count == 0)
        && is_empty missing)
status_of-sufficient flags evidence_count missing = ground arith

module _ (haystack : HybridEvidence → Text) (is_temporal : Text → Bool) where
  -- Where dimensions are required, the missing ones are those that no result covers, in the plan's
  -- order, and together with the covered ones they are as many as the required.
  pub dimensions-split :
      (plan : ResearchPlan) (results : List WorkerResult)
      → is_empty plan.required_comparison_dimensions ≡ false
      → ((dimensions haystack is_temporal plan results).1
          ≡ keep_if
              (λ d. not (is_covered haystack is_temporal plan.tasks results d))
              plan.required_comparison_dimensions)
        × (length (dimensions haystack is_temporal plan results).0
              + length (dimensions haystack is_temporal plan results).1
            ≡ length plan.required_comparison_dimensions)
  unfolding dimensions
  dimensions-split plan results some_required =
      let p = is_covered haystack is_temporal plan.tasks results in
      let required = plan.required_comparison_dimensions in
      let missing = rest-keep_if p required required (All-contains p required) in
      rw (some_required, missing) (refl, length-split p required)

  -- Where dimensions are required, the evidence counts as sufficient just when nothing blocked,
  -- exhausted or failed the research, there is evidence, and every required dimension is covered.
  pub assess_coverage-sufficient :
      (plan : ResearchPlan) (results : List WorkerResult) (evidence_count : ℕ) (flags : Flags)
      → is_empty plan.required_comparison_dimensions ≡ false
      → is_sufficient
          (assess_coverage haystack is_temporal plan results evidence_count flags).status
        ≡ (not flags.authorization_blocked
            && not flags.budget_exhausted
            && not flags.failed
            && not (evidence_count == 0)
            && all_of
                (is_covered haystack is_temporal plan.tasks results)
                plan.required_comparison_dimensions)
  unfolding assess_coverage
  assess_coverage-sufficient plan results evidence_count flags some_required =
      let p = is_covered haystack is_temporal plan.tasks results in
      let required = plan.required_comparison_dimensions in
      let none_missing =
        ap is_empty (dimensions-split plan results some_required).0 ∙ is_empty-keep_if p required in
      status_of-sufficient flags evidence_count (dimensions haystack is_temporal plan results).1
      ∙ ap
          (λ b.
            not flags.authorization_blocked
            && not flags.budget_exhausted
            && not flags.failed
            && not (evidence_count == 0)
            && b)
          none_missing

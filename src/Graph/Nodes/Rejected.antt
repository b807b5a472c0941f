-- ===== src/Graph/Nodes/Rejected.antt =====
-- What `validate_evidence` lets through, and what the state's reducer makes of it.
use enterprise_ai_knowledge.Common.{
  ◌∙◌, ap, sym, subst, some, leb, ◌==◌, nat_beq_iff, map, false, nat_eq, eq_refl, ◌≡◌, ◌∷◌, ℕ, ◌||◌,
  true, refl, not, length, is_empty, inr, inl, if◌then◌else◌, contains, arith, any_of, [], Text,
  List, Bool-cases, Bool, All-imp, All, ◌+◌, ◌&&◌,
}
use enterprise_ai_knowledge.Graph.Reducers.{append_unique, add_unique}
use enterprise_ai_knowledge.Graph.State.{GraphState, same_evidence, merge}
use enterprise_ai_knowledge.Graph.Nodes.Retrieval.{
  is_valid_evidence, evidence_update, valid_evidence,
}
use enterprise_ai_knowledge.Research.Aggregation.{same_identity, HybridEvidence, Source}
use enterprise_ai_knowledge.Graph.Services.{Services}
use enterprise_ai_knowledge.Identity.{Principal}
use enterprise_ai_knowledge.Security.Authorization.{is_document_authorized}

abbrev pub chunks_of : List HybridEvidence → List ℕ
chunks_of items = map (λ (i : HybridEvidence). i.evidence.chunk_id) items

-- No chunk comes twice, nor is it among those that were seen.
abbrev pub Unrepeated : List ℕ → List ℕ → Type 0
Unrepeated seen [] = Unit
Unrepeated seen (chunk ∷ chunks) = (contains seen chunk ≡ false) × Unrepeated (chunk ∷ seen) chunks

valid_evidence-passes :
    (passes : Source → Bool) (seen : List ℕ) (items : List HybridEvidence)
    → All (λ (i : HybridEvidence). passes i.evidence ≡ true) (valid_evidence passes seen items).0
      × (length (valid_evidence passes seen items).0 + (valid_evidence passes seen items).1
          ≡ length items)
      × Unrepeated seen (chunks_of (valid_evidence passes seen items).0)
unfolding valid_evidence
valid_evidence-passes passes seen [] = (tt, omega arith, tt)
valid_evidence-passes passes seen (item ∷ rest) =
    elim (Bool-cases (not (contains seen item.evidence.chunk_id) && passes item.evidence)) [
      | inl accepted ↦
          let (all, count, once) =
            valid_evidence-passes passes (item.evidence.chunk_id ∷ seen) rest in
          rw (accepted, valid_evidence)
            ((ground arith, all), omega (arith, count), (ground arith, once))
      | inr rejected ↦
          let (all, count, once) = valid_evidence-passes passes seen rest in
          rw (rejected, valid_evidence) (all, omega (arith, count), once)
    ]

-- An item that passes is represented: its chunk was seen, or is among the valid.
abbrev pub IsKept : (Source → Bool) → List ℕ → List ℕ → HybridEvidence → Type 0
IsKept passes seen chunks i =
    (passes i.evidence
      && not (contains seen i.evidence.chunk_id || contains chunks i.evidence.chunk_id))
    ≡ false

valid_evidence-IsKept :
    (passes : Source → Bool) (seen : List ℕ) (items : List HybridEvidence)
    → All (IsKept passes seen (chunks_of (valid_evidence passes seen items).0)) items
unfolding valid_evidence
valid_evidence-IsKept passes seen [] = tt
valid_evidence-IsKept passes seen (item ∷ rest) =
    let id = item.evidence.chunk_id in
    elim (Bool-cases (not (contains seen id) && passes item.evidence)) [
      | inl accepted ↦
          let later = (valid_evidence passes (id ∷ seen) rest).0 in
          let made : (valid_evidence passes seen (item ∷ rest)).0 ≡ item ∷ later =
            rw (accepted, valid_evidence) refl in
          subst (λ vs. All (IsKept passes seen (chunks_of vs)) (item ∷ rest)) (sym made)
            (
              ground (arith, nat_beq_iff id id),
              All-imp (IsKept passes (id ∷ seen) (chunks_of later))
                  (IsKept passes seen (id ∷ chunks_of later)) (λ i h. ground arith) rest
                  (valid_evidence-IsKept passes (id ∷ seen) rest),
            )
      | inr rejected ↦
          let made : (valid_evidence passes seen (item ∷ rest)).0
              ≡ (valid_evidence passes seen rest).0 =
            rw (rejected, valid_evidence) refl in
          subst (λ vs. All (IsKept passes seen (chunks_of vs)) (item ∷ rest)) (sym made)
            (ground arith, valid_evidence-IsKept passes seen rest)
    ]

valid_evidence-among :
    (P : HybridEvidence → Type 0) (passes : Source → Bool) (seen : List ℕ)
    (items : List HybridEvidence)
    → All P items
    → All P (valid_evidence passes seen items).0
unfolding valid_evidence
valid_evidence-among P passes seen [] h = tt
valid_evidence-among P passes seen (item ∷ rest) (h, all) =
    elim (Bool-cases (not (contains seen item.evidence.chunk_id) && passes item.evidence)) [
      | inl accepted ↦
          rw (accepted, valid_evidence)
            (h, valid_evidence-among P passes (item.evidence.chunk_id ∷ seen) rest all)
      | inr rejected ↦ rw (rejected, valid_evidence) (valid_evidence-among P passes seen rest all)
    ]

module _ {A : Type 0} (same : A → A → Bool) (same_self : (a : A) → same a a ≡ true) where
  or_right : (a b : Bool) → b ≡ true → (a || b) ≡ true
  or_right a b h = ground arith

  All-self : (xs : List A) → All (λ x. any_of (same x) xs ≡ true) xs
  All-self [] = tt
  All-self (x ∷ xs) = (
    rw (same_self x) refl,
    All-imp _ _ (λ y h. or_right (same y x) (any_of (same y) xs) h) xs (All-self xs),
  )

  add_unique-known :
      (left right : List A)
      → All (λ x. any_of (same x) left ≡ true) right
      → add_unique same left right ≡ left
  unfolding add_unique
  add_unique-known left [] h = refl
  add_unique-known left (x ∷ right) (known, rest) =
      rw (known, add_unique) (add_unique-known left right rest)

  append_unique-known :
      (left right : List A)
      → All (λ x. any_of (same x) left ≡ true) right
      → append_unique same left right ≡ (if is_empty right then [] else left)
  unfolding append_unique
  append_unique-known left [] h = refl
  append_unique-known left (x ∷ right) h = add_unique-known left (x ∷ right) h

same_evidence_self : (e : HybridEvidence) → same_evidence e e ≡ true
unfolding same_evidence same_identity
same_evidence_self e =
    rw
      (
        eq_refl e.evidence.evidence_id,
        eq_refl e.evidence.document_id,
        eq_refl e.evidence.source_file,
        eq_refl e.evidence.section_path,
        eq_refl e.evidence.source_line_start,
        eq_refl e.evidence.source_line_end,
        eq_refl e.evidence.title,
        eq_refl e.evidence.version,
        eq_refl e.evidence.updated_date,
        eq_refl e.evidence.access.access_level,
        eq_refl e.evidence.access.allowed_roles,
        eq_refl e.evidence.chunk_content_hash,
        eq_refl e.evidence.build_fingerprint,
        eq_refl e.evidence.chunk_id,
        eq_refl e.evidence.text,
        eq_refl e.final_rank,
        eq_refl e.hybrid_score,
      )
      refl

-- The state behind `validate_evidence` holds no evidence where no item is valid, and else all that
-- it held before, the rejected items with it.
pub merge-validated :
    (passes : Source → Bool) (identifiers : List Text) (s : GraphState)
    → (merge s (
        evidence_update identifiers
          (valid_evidence passes [] s.retrieved_evidence))).retrieved_evidence
      ≡ (if is_empty (valid_evidence passes [] s.retrieved_evidence).0
          then []
          else s.retrieved_evidence)
unfolding merge evidence_update
merge-validated passes identifiers s =
    append_unique-known same_evidence same_evidence_self s.retrieved_evidence
      (valid_evidence passes [] s.retrieved_evidence).0
      (valid_evidence-among _ passes [] s.retrieved_evidence
        (All-self same_evidence same_evidence_self s.retrieved_evidence))

-- Evidence that may be answered from: of a document that the authorization grants the principal, of
-- the current build, without untrusted instructions, with its lines in order, and of a document with
-- an identifier of the question, where it has any.
abbrev pub is_servable :
    Services
    → Principal
    → (fingerprint : ℕ) (identifiers : List Text) (exact : List ℕ) → Source
    → Bool
is_servable v p fingerprint identifiers exact source =
    is_document_authorized p (some source.access)
    && (source.build_fingerprint == fingerprint)
    && not (v.is_untrusted source.text)
    && leb source.source_line_start source.source_line_end
    && (is_empty identifiers || contains exact source.document_id)

servable_same :
    (v : Services) (p : Principal) (fingerprint : ℕ) (identifiers : List Text) (exact : List ℕ)
    (source : Source)
    → is_valid_evidence v p fingerprint identifiers exact source
      ≡ is_servable v p fingerprint identifiers exact source
unfolding is_valid_evidence is_document_authorized
servable_same v p fingerprint identifiers exact source = ground arith

All-both :
    {A : Type 0} (P Q : A → Type 0) (xs : List A) → All P xs → All Q xs → All (λ x. P x × Q x) xs
All-both P Q [] p q = tt
All-both P Q (x ∷ xs) p q = ((p.0, q.0), All-both P Q xs p.1 q.1)

-- The loop of `validate_evidence` lets through only items of the state that may be answered from, and
-- no chunk twice; the chunk of every item that may be answered from is among them; and it counts all
-- other items as rejected.
pub validate_evidence-is_servable :
    (v : Services) (p : Principal) (fingerprint : ℕ) (identifiers : List Text) (exact : List ℕ)
    (items : List HybridEvidence)
    → let passes = is_valid_evidence v p fingerprint identifiers exact in
      let servable = is_servable v p fingerprint identifiers exact in
      let kept = (valid_evidence passes [] items).0 in
      All
        (λ (i : HybridEvidence).
          (servable i.evidence ≡ true) × (any_of (same_evidence i) items ≡ true))
        kept
      × Unrepeated [] (chunks_of kept)
      × All
          (λ (i : HybridEvidence).
            (servable i.evidence && not (contains (chunks_of kept) i.evidence.chunk_id)) ≡ false)
          items
      × (length kept + (valid_evidence passes [] items).1 ≡ length items)
validate_evidence-is_servable v p fingerprint identifiers exact items =
    let passes = is_valid_evidence v p fingerprint identifiers exact in
    let servable = is_servable v p fingerprint identifiers exact in
    let kept = (valid_evidence passes [] items).0 in
    let same = servable_same v p fingerprint identifiers exact in
    let (all, count, once) = valid_evidence-passes passes [] items in
    (
      All-both (λ (i : HybridEvidence). servable i.evidence ≡ true)
          (λ i. any_of (same_evidence i) items ≡ true) kept
          (All-imp (λ (i : HybridEvidence). passes i.evidence ≡ true)
            (λ (i : HybridEvidence). servable i.evidence ≡ true) (λ i h. sym (same i.evidence) ∙ h)
            kept all)
          (valid_evidence-among (λ i. any_of (same_evidence i) items ≡ true) passes [] items
            (All-self same_evidence same_evidence_self items)),
      once,
      All-imp (IsKept passes [] (chunks_of kept))
          (λ (i : HybridEvidence).
            (servable i.evidence && not (contains (chunks_of kept) i.evidence.chunk_id)) ≡ false)
          (λ i h.
            ap (λ b. b && not (contains (chunks_of kept) i.evidence.chunk_id))
              (sym (same i.evidence))
            ∙ h)
          items (valid_evidence-IsKept passes [] items),
      count,
    )

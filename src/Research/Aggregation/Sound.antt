-- ===== src/Research/Aggregation/Sound.antt =====
-- The ledger of a research run is within its bounds and holds admissible evidence only.
-- `sum(len(text))` over the entries
use enterprise_ai_knowledge.Common.{
  if◌then◌else◌, Entries-lookup, nat_eq, ◌≤◌, ◌≡◌, ◌∷◌, ℕ, ◌||◌, true, map, ltb, lookup, length,
  leb, inr, inl, arith, [], Option-cases, List, Entries-insert, Entries, Dict, Bool-cases, Bool,
  All, ◌==◌, ◌+◌,
}
use enterprise_ai_knowledge.Research.Aggregation.{
  add_task, better, comes_before, nothing_collected, same_identity, HybridEvidence,
  ResearchWorkerResult, collect_evidence, Collected, ResearchEvidenceLedger, accept_entries,
  collect_results, collect, is_admissible, collect_chunk, aggregate_evidence, insert_sorted,
  Aggregation, ResearchEvidenceEntry, sorted,
}

unfoldable pub total_size : (ℕ → ℕ) → List ResearchEvidenceEntry → ℕ
total_size size [] = 0
total_size size (x ∷ rest) = size x.evidence.evidence.text + total_size size rest

-- What is collected and what is accepted has passed the three tests.
abbrev pub Admissible : Aggregation → ResearchEvidenceEntry → Type 0
Admissible a x = is_admissible a x.evidence.evidence ≡ true

All-insert_sorted {ℓ κ} :
    {A : Type ℓ} (P : A → Type κ) (before : A → A → Bool) (x : A) (xs : List A)
    → P x
    → All P xs
    → All P (insert_sorted before x xs)
unfolding insert_sorted
All-insert_sorted P before x [] p h = (p, tt)
All-insert_sorted P before x (y ∷ ys) p h = elim (Bool-cases (before y x)) [
  | inl e ↦ rw e (h.0, All-insert_sorted P before x ys p h.1)
  | inr e ↦ rw e (p, h)
]

All-sorted {ℓ κ} :
    {A : Type ℓ} (P : A → Type κ) (before : A → A → Bool) (xs : List A)
    → All P xs
    → All P (sorted before xs)
unfolding sorted
All-sorted P before [] h = tt
All-sorted P before (x ∷ xs) h =
    All-insert_sorted P before x (sorted before xs) h.0 (All-sorted P before xs h.1)

module _ (a : Aggregation) where
  abbrev Kept : Collected → Type 0
  Kept c = Entries (λ k x. Admissible a x) c.entries

  best-admissible :
      (e f : HybridEvidence)
      → is_admissible a e.evidence ≡ true
      → is_admissible a f.evidence ≡ true
      → is_admissible a (if better e f then e else f).evidence ≡ true
  best-admissible e f fine known = elim (Bool-cases (better e f)) [
    | inl first ↦ rw first fine
    | inr second ↦ rw second known
  ]

  collect_chunk-Kept :
      (t : ℕ) (e : HybridEvidence) (c : Collected)
      → is_admissible a e.evidence ≡ true
      → Kept c
      → Kept (collect_chunk t e c)
  unfolding collect_chunk
  collect_chunk-Kept t e c fine kept = elim (Option-cases (lookup e.evidence.chunk_id c.entries)) [
    | inl absent ↦
        rw (absent, collect_chunk)
          (Entries-insert (λ k x. Admissible a x) e.evidence.chunk_id
            (record { evidence = e; task_ids = t ∷ [] }) c.entries fine kept)
    | inr (x, found) ↦ elim (Bool-cases (same_identity x.evidence.evidence e.evidence)) [
      | inl same ↦
          rw (found, same, collect_chunk)
            (Entries-insert (λ k y. Admissible a y) e.evidence.chunk_id
              (record {
                evidence = if better e x.evidence then e else x.evidence;
                task_ids = add_task t x.task_ids;
              })
              c.entries
              (best-admissible e x.evidence fine
                (Entries-lookup (λ k y. Admissible a y) e.evidence.chunk_id c.entries kept found))
              kept)
      | inr other ↦ rw (found, other, collect_chunk) kept
    ]
  ]

  collect-Kept : (t : ℕ) (e : HybridEvidence) (c : Collected) → Kept c → Kept (collect a t e c)
  unfolding collect
  collect-Kept t e c kept = elim (Bool-cases (is_admissible a e.evidence)) [
    | inr bad ↦ rw bad kept
    | inl fine ↦ elim (Option-cases (lookup e.evidence.evidence_id c.chunk_of)) [
      | inl absent ↦ rw (fine, absent) (collect_chunk-Kept t e c fine kept)
      | inr (known, found) ↦ elim (Bool-cases (known == e.evidence.chunk_id)) [
        | inl same ↦ rw (fine, found, same) (collect_chunk-Kept t e c fine kept)
        | inr other ↦ rw (fine, found, other) kept
      ]
    ]
  ]

  collect_evidence-Kept :
      (t : ℕ) (es : List HybridEvidence) (c : Collected) → Kept c → Kept (collect_evidence a t es c)
  unfolding collect_evidence
  collect_evidence-Kept t [] c kept = kept
  collect_evidence-Kept t (e ∷ es) c kept =
      collect_evidence-Kept t es (collect a t e c) (collect-Kept t e c kept)

  collect_results-Kept :
      (rs : List ResearchWorkerResult) (c : Collected) → Kept c → Kept (collect_results a rs c)
  unfolding collect_results
  collect_results-Kept [] c kept = kept
  collect_results-Kept (r ∷ rs) c kept =
      collect_results-Kept rs (collect_evidence a r.task_id r.evidence c)
        (collect_evidence-Kept r.task_id r.evidence c kept)

  All-values :
      (d : Dict ℕ ResearchEvidenceEntry)
      → Entries (λ k x. Admissible a x) d
      → All (Admissible a) (map (λ kv. kv.1) d)
  All-values [] h = tt
  All-values ((k, x) ∷ d) h = (h.0, All-values d h.1)

  -- What an accepting loop gives, from a count and a size that are within the bounds.
  abbrev pub Bounded : ℕ → ℕ → ResearchEvidenceLedger → Type 0
  Bounded count characters ledger =
      (length ledger.entries + count ≤ a.maximum_items)
      × (ledger.total_characters ≡ total_size a.size ledger.entries + characters)
      × (ledger.total_characters ≤ a.maximum_characters)
      × All (Admissible a) ledger.entries

  accept_entries-Bounded :
      (count characters dropped : ℕ) (xs : List ResearchEvidenceEntry)
      → count ≤ a.maximum_items
      → characters ≤ a.maximum_characters
      → All (Admissible a) xs
      → Bounded count characters (accept_entries a count characters dropped xs)
  unfolding accept_entries total_size
  accept_entries-Bounded count characters dropped [] few small h = ground arith
  accept_entries-Bounded count characters dropped (x ∷ rest) few small h =
      let size = a.size x.evidence.evidence.text in
      elim (Bool-cases
        (leb a.maximum_items count || ltb a.maximum_characters (characters + size))) [
          | inl full ↦
              rw full (accept_entries-Bounded count characters (dropped + 1) rest few small h.1)
          | inr room ↦
              let ih =
                accept_entries-Bounded (count + 1) (characters + size) dropped rest (ground arith)
                  (ground arith) h.1 in
              let fit = ih.0 in
              let sum = ih.1 in rw room (omega arith, omega arith, ih.2, (h.0, ih.3))
        ]

  -- The ledger has at most the configured items; its size is the sum of the entries' sizes and
  -- at most the configured one; and every entry has the expected build, holds no untrusted
  -- instruction and is authorized for the principal, where a build and a principal are given.
  pub aggregate_evidence-Bounded :
      (results : List ResearchWorkerResult) → Bounded 0 0 (aggregate_evidence a results)
  unfolding aggregate_evidence
  aggregate_evidence-Bounded results =
      let sorted_results = sorted (λ x y. ltb x.task_id y.task_id) results in
      let c = collect_results a sorted_results nothing_collected in
      accept_entries-Bounded 0 0 c.dropped (sorted comes_before (map (λ kv. kv.1) c.entries))
        (omega arith) (omega arith)
        (All-sorted (Admissible a) comes_before (map (λ kv. kv.1) c.entries)
          (All-values c.entries (collect_results-Kept sorted_results nothing_collected tt)))

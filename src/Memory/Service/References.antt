-- ===== src/Memory/Service/References.antt =====
-- What a turn may remember of its evidence.
use enterprise_ai_knowledge.Common.{
  nat_eq, ◌≤◌, ◌||◌, refl, not, length-take, length, arith, All-imp, ◌⊎◌, ◌≢◌, ◌≡◌, ◌∷◌, ℕ, zero,
  true, take, suc, inr, inl, false, contains, [], List, Bool, All-take, All, ◌&&◌,
}
use enterprise_ai_knowledge.Identity.{level_eq, role_eq, Principal}
use enterprise_ai_knowledge.Memory.Models.{MemoryEvidenceReference}
use enterprise_ai_knowledge.Memory.Service.{
  evidence_references, references_from, ServiceTools, ServiceSettings, MemoryEvidence,
}
use enterprise_ai_knowledge.Security.Authorization.{allowed_access_levels}

module _ (p : Principal) where
  -- Readable by the principal: the level is allowed to its role, and the role is on the list.
  abbrev pub readable : MemoryEvidence → Bool
  readable item =
      contains item.allowed_roles p.identity.role
      && contains (allowed_access_levels p) item.reference.access_level

  -- A reference that stands for some readable item of the evidence.
  abbrev pub Sourced : List MemoryEvidence → MemoryEvidenceReference → Type 0
  Sourced [] r = ⊥
  Sourced (item ∷ rest) r = ((item.reference ≡ r) × (readable item ≡ true)) ⊎ Sourced rest r

  -- No two references are to one chunk.
  abbrev pub DistinctChunks : List MemoryEvidenceReference → Type 0
  DistinctChunks [] = Unit
  DistinctChunks (r ∷ rs) = All (λ q. q.chunk_id ≢ r.chunk_id) rs × DistinctChunks rs

  abbrev Unseen : List ℕ → MemoryEvidenceReference → Type 0
  Unseen seen r = contains seen r.chunk_id ≡ false

  DistinctChunks-take :
      (n : ℕ) (rs : List MemoryEvidenceReference) → DistinctChunks rs → DistinctChunks (take n rs)
  DistinctChunks-take zero rs h = tt
  DistinctChunks-take (suc n) [] h = tt
  DistinctChunks-take (suc n) (r ∷ rs) h =
      (All-take (λ q. q.chunk_id ≢ r.chunk_id) n rs h.0, DistinctChunks-take n rs h.1)

  module _ (settings : ServiceSettings) (tools : ServiceTools) where
    -- An item that is not skipped has a new chunk and is readable.
    kept-cases :
        (seen : List ℕ) (item : MemoryEvidence)
        → let skipped =
            contains seen item.reference.chunk_id
            || not (contains item.allowed_roles p.identity.role)
            || not (contains (allowed_access_levels p) item.reference.access_level) in
          (skipped ≡ true)
          ⊎ ((skipped ≡ false)
              × (contains seen item.reference.chunk_id ≡ false)
              × (readable item ≡ true))
    kept-cases seen item = ground arith

    found-Unseen :
        (seen : List ℕ) (evidence : List MemoryEvidence)
        → All (Unseen seen) (references_from settings tools p seen evidence)
    unfolding references_from
    found-Unseen seen [] = tt
    found-Unseen seen (item ∷ rest) = elim (kept-cases seen item) [
      | inl skip ↦ rw skip (found-Unseen seen rest)
      | inr (keep, new, good) ↦ rw keep (
        new,
        All-imp (Unseen (item.reference.chunk_id ∷ seen)) (Unseen seen) (λ r h. ground arith) _
            (found-Unseen (item.reference.chunk_id ∷ seen) rest),
      )
    ]

    found-DistinctChunks :
        (seen : List ℕ) (evidence : List MemoryEvidence)
        → DistinctChunks (references_from settings tools p seen evidence)
    unfolding references_from
    found-DistinctChunks seen [] = tt
    found-DistinctChunks seen (item ∷ rest) = elim (kept-cases seen item) [
      | inl skip ↦ rw skip (found-DistinctChunks seen rest)
      | inr (keep, new, good) ↦ rw keep (
        All-imp (Unseen (item.reference.chunk_id ∷ seen))
            (λ q. q.chunk_id ≢ item.reference.chunk_id) (λ q h e. ground arith) _
            (found-Unseen (item.reference.chunk_id ∷ seen) rest),
        found-DistinctChunks (item.reference.chunk_id ∷ seen) rest,
      )
    ]

    found-Sourced :
        (seen : List ℕ) (evidence : List MemoryEvidence)
        → All (Sourced evidence) (references_from settings tools p seen evidence)
    unfolding references_from
    found-Sourced seen [] = tt
    found-Sourced seen (item ∷ rest) = elim (kept-cases seen item) [
      | inl skip ↦ rw skip (
          All-imp (Sourced rest) (Sourced (item ∷ rest)) (λ r h. inr h) _ (found-Sourced seen rest))
      | inr (keep, new, good) ↦ rw keep (
        inl (refl, good),
        All-imp (Sourced rest) (Sourced (item ∷ rest)) (λ r h. inr h) _
            (found-Sourced (item.reference.chunk_id ∷ seen) rest),
      )
    ]

    -- A turn remembers at most the configured number of references. Each stands for an item that
    -- the principal may read, and no two are to one chunk.
    pub evidence_references-Sourced :
        (evidence : List MemoryEvidence)
        → (length (evidence_references settings tools evidence p)
            ≤ settings.max_evidence_references)
          × All (Sourced evidence) (evidence_references settings tools evidence p)
          × DistinctChunks (evidence_references settings tools evidence p)
    unfolding evidence_references
    evidence_references-Sourced evidence = (
      omega (
        arith,
        length-take settings.max_evidence_references (references_from settings tools p [] evidence),
      ),
      All-take (Sourced evidence) settings.max_evidence_references _ (found-Sourced [] evidence),
      DistinctChunks-take settings.max_evidence_references _ (found-DistinctChunks [] evidence),
    )

-- ===== src/Ingestion/Chunker/Overlaps.antt =====
-- The chunks of a document, as its cores with what each repeats of the core before.
use mathlib.Core.List.{append_assoc}
use enterprise_ai_knowledge.Common.{
  leb, ◌⊎◌, ◌≤◌, ◌≡◌, ◌∷◌, ◌∙◌, ℕ, true, sym, refl, ltb, is_empty, inr, inl, flat_map, arith, ap,
  [], Text, List, Bool-cases, ◌==◌, ◌-◌, ◌++◌, ◌+◌, list_eq, nat_eq,
}
use enterprise_ai_knowledge.Ingestion.Chunker.{
  first_path, taken_overlap, count_blocks, final_cores, shrink_overlap, ChunkDraft, drafts_from,
  pack_document, draft_of, overlap_from, IngestionConfig, blocks_of, Tokenizer, reversed,
  MarkdownBlock,
}
use enterprise_ai_knowledge.Graph.Numbered.{append_after, append_nil}
use enterprise_ai_knowledge.Ingestion.Chunker.Packed.{final_cores-blocks_of}

-- The first list is what a suffix of the second is left of.
abbrev IsSuffix : List MarkdownBlock → List MarkdownBlock → Type 0
IsSuffix overlap blocks = (dropped : List MarkdownBlock) × (blocks ≡ dropped ++ overlap)

IsSuffix-trans : (a b c : List MarkdownBlock) → IsSuffix a b → IsSuffix b c → IsSuffix a c
IsSuffix-trans a b c (x, p) (y, q) = (y ++ x, q ∙ ap (λ z. y ++ z) p ∙ sym (append_assoc y x a))

reversed-append : (xs ys : List MarkdownBlock) → reversed (xs ++ ys) ≡ reversed ys ++ reversed xs
unfolding reversed
reversed-append [] ys = sym (append_nil (reversed ys))
reversed-append (x ∷ xs) ys =
    ap (λ z. z ++ x ∷ []) (reversed-append xs ys)
    ∙ append_assoc (reversed ys) (reversed xs) (x ∷ [])

reversed-reversed : (xs : List MarkdownBlock) → reversed (reversed xs) ≡ xs
unfolding reversed
reversed-reversed [] = refl
reversed-reversed (x ∷ xs) =
    reversed-append (reversed xs) (x ∷ []) ∙ ap (λ z. x ∷ z) (reversed-reversed xs)

flat_map-append :
    (xs ys : List (List MarkdownBlock))
    → flat_map (λ core. core) (xs ++ ys) ≡ flat_map (λ core. core) xs ++ flat_map (λ core. core) ys
unfolding flat_map
flat_map-append [] ys = refl
flat_map-append (x ∷ xs) ys =
    ap (λ z. x ++ z) (flat_map-append xs ys)
    ∙ sym (append_assoc x (flat_map (λ core. core) xs) (flat_map (λ core. core) ys))

flat_map-reversed :
    (cores : List (List MarkdownBlock)) → flat_map (λ core. core) (reversed cores) ≡ blocks_of cores
unfolding flat_map reversed blocks_of
flat_map-reversed [] = refl
flat_map-reversed (core ∷ cores) =
    flat_map-append (reversed cores) (core ∷ [])
    ∙ ap (λ z. z ++ (core ++ [])) (flat_map-reversed cores)
    ∙ ap (λ z. blocks_of cores ++ z) (append_nil core)

module _ (tokenizer : Tokenizer) (config : IngestionConfig) where
  -- The tokens of blocks, each counted for itself.
  abbrev pub block_tokens : List MarkdownBlock → ℕ
  block_tokens [] = 0
  block_tokens (block ∷ blocks) = tokenizer.count block.text + block_tokens blocks

  -- A suffix of blocks whose tokens are counted right, and may overlap.
  abbrev Counted : List MarkdownBlock × ℕ → List MarkdownBlock → Type 0
  Counted taken blocks =
      IsSuffix taken.0 blocks × (taken.1 ≡ block_tokens taken.0) × (taken.1 ≤ config.overlap_tokens)

  overlap_from-Counted :
      (path : List Text) (back overlap : List MarkdownBlock) (n : ℕ)
      → n ≡ block_tokens overlap
      → n ≤ config.overlap_tokens
      → Counted (overlap_from tokenizer config path back overlap n) (reversed back ++ overlap)
  unfolding overlap_from reversed
  overlap_from-Counted path [] overlap n same h = (([], refl), same, h)
  overlap_from-Counted path (block ∷ rest) overlap n same h =
      let stay : IsSuffix overlap (reversed (block ∷ rest) ++ overlap) =
        (reversed rest ++ block ∷ [], refl) in
      elim (Bool-cases (block.section_path == path)) [
        | inr e ↦ rw (e, overlap_from) (stay, same, h)
        | inl e ↦ elim (Bool-cases (ltb config.overlap_tokens (n + tokenizer.count block.text))) [
          | inl f ↦ rw (e, f, overlap_from) (stay, same, h)
          | inr f ↦
              let longer =
                overlap_from-Counted path rest (block ∷ overlap) (n + tokenizer.count block.text)
                  (omega (arith, same)) (ground arith) in
              rw (e, f, overlap_from)
                (
                  (longer.0.0, append_after (reversed rest) overlap block ∙ longer.0.1),
                  longer.1,
                  longer.2,
                )
        ]
      ]

  shrink_overlap-Counted :
      (core overlap : List MarkdownBlock) (n : ℕ)
      → n ≡ block_tokens overlap
      → n ≤ config.overlap_tokens
      → let kept = shrink_overlap tokenizer config core overlap n in
        Counted kept overlap
        × ((is_empty kept.0 ≡ true)
            ⊎ (count_blocks tokenizer (kept.0 ++ core) ≤ config.maximum_chunk_tokens))
  unfolding shrink_overlap
  shrink_overlap-Counted core [] n same h = ((([], refl), same, h), inl refl)
  shrink_overlap-Counted core (block ∷ overlap) n same h =
      elim (Bool-cases
        (ltb config.maximum_chunk_tokens (count_blocks tokenizer (block ∷ overlap ++ core)))) [
          | inr e ↦ rw (e, shrink_overlap) ((([], refl), same, h), inr (ground arith))
          | inl e ↦
              let shorter =
                shrink_overlap-Counted core overlap (n - tokenizer.count block.text)
                  (omega (arith, same)) (omega (arith, h)) in
              rw (e, shrink_overlap)
                (
                  (
                    (block ∷ shorter.0.0.0, ap (λ z. block ∷ z) shorter.0.0.1),
                    shorter.0.1,
                    shorter.0.2,
                  ),
                  shorter.1,
                )
        ]

  -- A chunk repeats the end of the core before its own, whose tokens it counts and which are within
  -- what may overlap; if it repeats any block, the chunk is within the maximum of tokens.
  abbrev pub IsOverlap : (previous core : List MarkdownBlock) → ChunkDraft → Type 0
  IsOverlap previous core draft =
      (overlap : List MarkdownBlock) × IsSuffix overlap previous
      × (draft.blocks ≡ overlap ++ core)
      × (draft.overlap_token_count ≡ block_tokens overlap)
      × (block_tokens overlap ≤ config.overlap_tokens)
      × ((is_empty overlap ≡ true)
          ⊎ (count_blocks tokenizer draft.blocks ≤ config.maximum_chunk_tokens))

  -- The chunks of cores in their order, behind a core.
  pub data Overlapped
      : List MarkdownBlock → List (List MarkdownBlock) → List ChunkDraft → Type 0 where
    done : (previous : List MarkdownBlock) → Overlapped previous [] []
    next :
        (previous core : List MarkdownBlock) (cores : List (List MarkdownBlock))
        (draft : ChunkDraft) (drafts : List ChunkDraft)
        → IsOverlap previous core draft
        → Overlapped core cores drafts
        → Overlapped previous (core ∷ cores) (draft ∷ drafts)

  taken_overlap-Counted :
      (previous core : List MarkdownBlock)
      → Counted (taken_overlap tokenizer config previous core) previous
  unfolding taken_overlap
  taken_overlap-Counted previous core =
      let all =
        overlap_from-Counted (first_path core) (reversed previous) [] 0 refl (omega arith) in
      let whole : reversed (reversed previous) ++ [] ≡ previous =
        append_nil (reversed (reversed previous)) ∙ reversed-reversed previous in
      elim (Bool-cases (leb config.target_chunk_tokens (count_blocks tokenizer core))) [
        | inl e ↦ rw (e, taken_overlap) ((all.0.0, sym whole ∙ all.0.1), all.1, all.2)
        | inr e ↦ rw (e, taken_overlap) ((previous, sym (append_nil previous)), refl, omega arith)
      ]

  draft_of-IsOverlap :
      (previous core : List MarkdownBlock)
      → IsOverlap previous core (draft_of tokenizer config previous core)
  unfolding draft_of
  draft_of-IsOverlap previous core =
      let taken = taken_overlap tokenizer config previous core in
      let t = taken_overlap-Counted previous core in
      let kept = shrink_overlap-Counted core taken.0 taken.1 t.1 t.2 in
      let overlap = (shrink_overlap tokenizer config core taken.0 taken.1).0 in
      (
        overlap,
        IsSuffix-trans overlap taken.0 previous kept.0.0 t.0,
        refl,
        kept.0.1,
        omega (arith, kept.0.1, kept.0.2),
        kept.1,
      )

  drafts_from-Overlapped :
      (previous : List MarkdownBlock) (cores : List (List MarkdownBlock))
      → Overlapped previous cores (drafts_from tokenizer config previous cores)
  unfolding drafts_from
  drafts_from-Overlapped previous [] = done previous
  drafts_from-Overlapped previous (core ∷ cores) =
      next previous core cores (draft_of tokenizer config previous core)
        (drafts_from tokenizer config core cores) (draft_of-IsOverlap previous core)
        (drafts_from-Overlapped core cores)

  -- The chunks are cores with an overlap each, and the cores in their order are the document's
  -- blocks: none is lost, repeated or moved. The overlap is the end of the core before, its
  -- blocks' tokens are within what may overlap and are what the chunk counts, and it is only there if the chunk with it is within the maximum.
  pub pack_document-Overlapped :
      (blocks : List MarkdownBlock)
      → (cores : List (List MarkdownBlock)) × (flat_map (λ core. core) cores ≡ blocks)
        × Overlapped [] cores (pack_document tokenizer config blocks)
  unfolding pack_document
  pack_document-Overlapped blocks =
      let cores = final_cores tokenizer config blocks in
      (
        reversed cores,
        flat_map-reversed cores ∙ final_cores-blocks_of tokenizer config blocks,
        drafts_from-Overlapped [] (reversed cores),
      )

-- ===== src/Ingestion/Chunker/Packed.antt =====
-- The cores of a document's chunks are its blocks, in their order.
use mathlib.Core.List.{append_assoc}
use enterprise_ai_knowledge.Common.{
  ℕ, ltb, leb, is_empty, ◌+◌, ◌&&◌, true, false, if◌then◌else◌, ap, Bool, ◌≡◌, ◌∷◌, ◌∙◌, sym, refl,
  inr, inl, [], List, Bool-cases, ◌==◌, ◌++◌, list_eq, nat_eq,
}
use enterprise_ai_knowledge.Ingestion.Chunker.{
  must_close, add_block, count_blocks, open_core, close_cores, Packing, pack_blocks, pack_block,
  rebalance_final_core, final_cores, first_path, rebalance, MarkdownBlock, blocks_of,
  IngestionConfig, runs_from, Tokenizer,
}
use enterprise_ai_knowledge.Graph.Numbered.{append_nil}

if-both : {A : Type 0} (P : A → Type 0) (b : Bool) (x y : A) → P x → P y → P (if b then x else y)
if-both P true x y p q = p
if-both P false x y p q = q

runs_from-blocks_of :
    (runs : List (List MarkdownBlock)) (blocks : List MarkdownBlock)
    → blocks_of (runs_from runs blocks) ≡ blocks_of runs ++ blocks
unfolding runs_from blocks_of
runs_from-blocks_of runs [] = sym (append_nil (blocks_of runs))
runs_from-blocks_of [] (block ∷ rest) = runs_from-blocks_of ((block ∷ []) ∷ []) rest
runs_from-blocks_of (run ∷ runs) (block ∷ rest) =
    elim (Bool-cases (first_path run == block.section_path)) [
      | inl e ↦
          rw (e, runs_from)
            (runs_from-blocks_of ((run ++ block ∷ []) ∷ runs) rest ∙ simp append_assoc refl)
      | inr e ↦
          rw (e, runs_from)
            (runs_from-blocks_of ((block ∷ []) ∷ run ∷ runs) rest ∙ simp append_assoc refl)
    ]

module _ (tokenizer : Tokenizer) (config : IngestionConfig) where
  rebalance-blocks_of :
      (runs : List (List MarkdownBlock)) (last : List MarkdownBlock)
      → (rebalance tokenizer config runs last).0 ++ (rebalance tokenizer config runs last).1
        ≡ blocks_of runs ++ last
  unfolding rebalance blocks_of
  rebalance-blocks_of [] last = refl
  rebalance-blocks_of (moved ∷ runs) last =
      if-both
        (λ (p : List MarkdownBlock × List MarkdownBlock).
          p.0 ++ p.1 ≡ blocks_of runs ++ moved ++ last)
        _ (blocks_of runs ++ moved, last) (rebalance tokenizer config runs (moved ++ last)) refl
        (rebalance-blocks_of runs (moved ++ last) ∙ simp append_assoc refl)

  rebalance_final_core-blocks_of :
      (cores : List (List MarkdownBlock))
      → blocks_of (rebalance_final_core tokenizer config cores) ≡ blocks_of cores
  unfolding rebalance_final_core blocks_of
  rebalance_final_core-blocks_of [] = refl
  rebalance_final_core-blocks_of (last ∷ []) = refl
  rebalance_final_core-blocks_of (last ∷ previous ∷ cores) =
      let r = rebalance tokenizer config (runs_from [] previous) last in
      append_assoc (blocks_of cores) r.0 r.1
      ∙ ap (λ x. blocks_of cores ++ x)
          (rebalance-blocks_of (runs_from [] previous) last
            ∙ ap (λ x. x ++ last) (runs_from-blocks_of [] previous))
      ∙ sym (append_assoc (blocks_of cores) previous last)

  close_cores-blocks_of :
      (cores : List (List MarkdownBlock)) (current : List MarkdownBlock)
      → blocks_of (close_cores tokenizer config cores current) ≡ blocks_of cores ++ current
  unfolding close_cores blocks_of
  close_cores-blocks_of cores [] = sym (append_nil (blocks_of cores))
  close_cores-blocks_of [] (block ∷ current) = refl
  close_cores-blocks_of (core ∷ cores) (block ∷ current) =
      let rest = block ∷ current in
      elim (Bool-cases (
        ltb (count_blocks tokenizer rest) config.minimum_chunk_tokens
        && leb (count_blocks tokenizer (core ++ rest)) config.maximum_chunk_tokens)) [
          | inl e ↦ rw (e, close_cores) (sym (append_assoc (blocks_of cores) core rest))
          | inr e ↦ rw (e, close_cores) refl
        ]

  -- The blocks that a state of the first loop holds.
  abbrev held : Packing → List MarkdownBlock
  held s = blocks_of s.cores ++ s.current

  open_core-held :
      (s : Packing) (block : MarkdownBlock) → held (open_core tokenizer config s block) ≡ held s
  unfolding open_core blocks_of
  open_core-held s block = elim (Bool-cases (must_close tokenizer config s block)) [
    | inl e ↦ rw (e, open_core) (append_nil (blocks_of s.cores ++ s.current))
    | inr e ↦ rw (e, open_core) refl
  ]

  add_block-held :
      (s : Packing) (separator : ℕ) (block : MarkdownBlock)
      → held (add_block tokenizer config s separator block) ≡ held s ++ block ∷ []
  unfolding add_block blocks_of
  add_block-held s separator block =
      let after = append_assoc (blocks_of s.cores) s.current (block ∷ []) in
      elim (Bool-cases (
        leb config.target_chunk_tokens
          (s.current_count + (separator + tokenizer.count block.text)))) [
            | inl e ↦
                rw (e, add_block)
                  (append_nil (blocks_of s.cores ++ (s.current ++ block ∷ [])) ∙ sym after)
            | inr e ↦ rw (e, add_block) (sym after)
          ]

  pack_block-held :
      (s : Packing) (block : MarkdownBlock)
      → held (pack_block tokenizer config s block) ≡ held s ++ block ∷ []
  unfolding pack_block
  pack_block-held s block =
      add_block-held (open_core tokenizer config s block) (if is_empty s.current then 0 else 1)
        block
      ∙ ap (λ x. x ++ block ∷ []) (open_core-held s block)

  pack_blocks-held :
      (s : Packing) (blocks : List MarkdownBlock)
      → held (pack_blocks tokenizer config s blocks) ≡ held s ++ blocks
  unfolding pack_blocks
  pack_blocks-held s [] = sym (append_nil (held s))
  pack_blocks-held s (block ∷ rest) =
      pack_blocks-held (pack_block tokenizer config s block) rest
      ∙ ap (λ x. x ++ rest) (pack_block-held s block)
      ∙ append_assoc (held s) (block ∷ []) rest

  pub final_cores-blocks_of :
      (blocks : List MarkdownBlock) → blocks_of (final_cores tokenizer config blocks) ≡ blocks
  unfolding final_cores blocks_of
  final_cores-blocks_of blocks =
      let start : Packing = record { cores = []; current = []; current_count = 0 } in
      let s = pack_blocks tokenizer config start blocks in
      rebalance_final_core-blocks_of (close_cores tokenizer config s.cores s.current)
      ∙ close_cores-blocks_of s.cores s.current
      ∙ pack_blocks-held start blocks

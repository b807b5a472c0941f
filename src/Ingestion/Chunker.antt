-- ===== src/Ingestion/Chunker.antt =====
-- `_pack_document` of ingestion/src/enterprise_ai_ingestion/chunker.py, with the blocks of models.py.
-- The tokenizer's count and the stripping of a text are parameters. The cores are kept last first, so
-- that `cores[-1]` is the head; the loop that moves the end of the last core but one walks its runs of
-- blocks with one path, which it moves one by one.

pub mod Packed
pub mod Overlaps
use enterprise_ai_knowledge.Common.{
  ◌∷◌, ℕ, ◌||◌, true, not, max, map, ltb, leb, is_empty, false, if◌then◌else◌, all_of, [], Text,
  List, Bool, ◌==◌, ◌/◌, ◌-◌, ◌++◌, ◌+◌, ◌&&◌, list_eq, nat_eq,
}
use enterprise_ai_knowledge.Llm.Drafts.{paragraph_break, join_texts}

pub data BlockKind : Type 0 where
  heading paragraph list table blockquote code_fence : BlockKind

pub record MarkdownBlock : Type 0 where
  pub kind : BlockKind
  pub text : Text
  pub source_line_start : ℕ
  pub source_line_end : ℕ
  pub section_path : List Text

pub record ChunkDraft : Type 0 where
  pub blocks : List MarkdownBlock
  pub overlap_token_count : ℕ

pub record IngestionConfig : Type 0 where
  pub target_chunk_tokens : ℕ
  pub minimum_chunk_tokens : ℕ
  pub maximum_chunk_tokens : ℕ
  pub overlap_tokens : ℕ
  pub maximum_chunks_per_document : ℕ
  pub maximum_chunk_text_bytes : ℕ

pub record Tokenizer : Type 0 where
  pub count : Text → ℕ
  pub strip : Text → Text

-- The state of the first loop.
pub record Packing : Type 0 where
  pub cores : List (List MarkdownBlock)
  pub current : List MarkdownBlock
  pub current_count : ℕ

abbrev pub is_heading : BlockKind → Bool
is_heading BlockKind.heading = true
is_heading _ = false

unfoldable pub paths_compatible : List Text → List Text → Bool
paths_compatible [] right = true
paths_compatible (l ∷ left) [] = true
paths_compatible (l ∷ left) (r ∷ right) = l == r

-- `current[-1].section_path`, of a list that is not empty.
unfoldable pub last_path : List MarkdownBlock → List Text
last_path [] = []
last_path (block ∷ []) = block.section_path
last_path (block ∷ next ∷ rest) = last_path (next ∷ rest)

abbrev pub first_path : List MarkdownBlock → List Text
first_path [] = []
first_path (block ∷ rest) = block.section_path

-- The runs of blocks with one path, the last run first, given those before.
unfoldable pub runs_from :
    List (List MarkdownBlock) → List MarkdownBlock → List (List MarkdownBlock)
runs_from runs [] = runs
runs_from [] (block ∷ rest) = runs_from ((block ∷ []) ∷ []) rest
runs_from (run ∷ runs) (block ∷ rest) =
    runs_from
      (if first_path run == block.section_path
        then (run ++ block ∷ []) ∷ runs
        else (block ∷ []) ∷ run ∷ runs)
      rest

unfoldable pub reversed {ℓ} : {A : Type ℓ} → List A → List A
reversed [] = []
reversed (x ∷ xs) = reversed xs ++ x ∷ []

-- The blocks of cores that are kept last first, in their order.
unfoldable pub blocks_of : List (List MarkdownBlock) → List MarkdownBlock
blocks_of [] = []
blocks_of (core ∷ cores) = blocks_of cores ++ core

module _ (tokenizer : Tokenizer) where
  -- `tokenizer.count(_text(blocks))`
  unfoldable pub count_blocks : List MarkdownBlock → ℕ
  count_blocks blocks =
      tokenizer.count
        (tokenizer.strip (join_texts paragraph_break (map (λ (b : MarkdownBlock). b.text) blocks)))

  -- `for block in reversed(previous_core)`: the overlap, and its tokens.
  unfoldable pub overlap_from :
      IngestionConfig
      → List Text
      → List MarkdownBlock
      → List MarkdownBlock
      → ℕ
      → List MarkdownBlock × ℕ
  overlap_from config path [] overlap overlap_count = (overlap, overlap_count)
  overlap_from config path (block ∷ rest) overlap overlap_count =
      let block_count = tokenizer.count block.text in
      let longer = overlap_from config path rest (block ∷ overlap) (overlap_count + block_count) in
      if not (block.section_path == path)
      then (overlap, overlap_count)
      else if ltb config.overlap_tokens (overlap_count + block_count)
      then (overlap, overlap_count)
      else longer

  -- The blocks at the front of the overlap are dropped while the chunk is too large.
  unfoldable pub shrink_overlap :
      IngestionConfig → List MarkdownBlock → List MarkdownBlock → ℕ → List MarkdownBlock × ℕ
  shrink_overlap config core [] overlap_count = ([], overlap_count)
  shrink_overlap config core (removed ∷ overlap) overlap_count =
      let shorter =
        shrink_overlap config core overlap (overlap_count - tokenizer.count removed.text) in
      if ltb config.maximum_chunk_tokens (count_blocks (removed ∷ overlap ++ core))
      then shorter
      else (removed ∷ overlap, overlap_count)

  -- What is repeated of the core before, where the core is of the target's size.
  unfoldable pub taken_overlap :
      IngestionConfig → (previous core : List MarkdownBlock) → List MarkdownBlock × ℕ
  taken_overlap config previous core =
      if leb config.target_chunk_tokens (count_blocks core)
      then overlap_from config (first_path core) (reversed previous) [] 0
      else ([], 0)

  unfoldable pub draft_of : IngestionConfig → (previous core : List MarkdownBlock) → ChunkDraft
  draft_of config previous core =
      let taken = taken_overlap config previous core in
      let (overlap, overlap_count) = shrink_overlap config core taken.0 taken.1 in
      record { blocks = overlap ++ core; overlap_token_count = overlap_count }

  -- The last loop, over the cores in their order.
  unfoldable pub drafts_from :
      IngestionConfig → List MarkdownBlock → List (List MarkdownBlock) → List ChunkDraft
  drafts_from config previous [] = []
  drafts_from config previous (core ∷ cores) =
      draft_of config previous core ∷ drafts_from config core cores

  -- The loop of `_rebalance_final_core`, on the runs of the last core but one, and the last core.
  unfoldable pub rebalance :
      IngestionConfig
      → List (List MarkdownBlock)
      → List MarkdownBlock
      → List MarkdownBlock × List MarkdownBlock
  rebalance config [] last = ([], last)
  rebalance config (moved ∷ runs) last =
      let preferred_floor = max config.minimum_chunk_tokens (config.target_chunk_tokens / 2) in
      let next = rebalance config runs (moved ++ last) in
      if not (ltb (count_blocks last) preferred_floor)
        || is_empty runs
        || not (paths_compatible (last_path moved) (first_path last))
        || ltb (count_blocks (blocks_of runs)) preferred_floor
        || ltb config.maximum_chunk_tokens (count_blocks (moved ++ last))
      then (blocks_of (moved ∷ runs), last)
      else next

  unfoldable pub rebalance_final_core :
      IngestionConfig → List (List MarkdownBlock) → List (List MarkdownBlock)
  rebalance_final_core config (last ∷ previous ∷ cores) =
      let (retained, final) = rebalance config (runs_from [] previous) last in
      final ∷ retained ∷ cores
  rebalance_final_core config cores = cores

  -- `current and (incompatible_boundary or (...))`
  unfoldable pub must_close : IngestionConfig → Packing → MarkdownBlock → Bool
  must_close config s block =
      let separator = if is_empty s.current then 0 else 1 in
      let incompatible_boundary = not (paths_compatible (last_path s.current) block.section_path) in
      let is_full =
        ltb config.target_chunk_tokens (s.current_count + separator + tokenizer.count block.text)
        && not (all_of (λ (b : MarkdownBlock). is_heading b.kind) s.current) in
      not (is_empty s.current) && (incompatible_boundary || is_full)

  -- The current blocks are closed, where they must be.
  unfoldable pub open_core : IngestionConfig → Packing → MarkdownBlock → Packing
  open_core config s block =
      if must_close config s block
      then record { cores = s.current ∷ s.cores; current = []; current_count = 0 }
      else s

  -- A block is added; the separator is the one from before the current blocks were closed.
  unfoldable pub add_block : IngestionConfig → Packing → ℕ → MarkdownBlock → Packing
  add_block config s separator block =
      let current = s.current ++ block ∷ [] in
      let current_count = s.current_count + (separator + tokenizer.count block.text) in
      if leb config.target_chunk_tokens current_count
      then record { cores = current ∷ s.cores; current = []; current_count = 0 }
      else record { cores = s.cores; current = current; current_count = current_count }

  -- One block in the first loop.
  unfoldable pub pack_block : IngestionConfig → Packing → MarkdownBlock → Packing
  pack_block config s block =
      add_block config (open_core config s block) (if is_empty s.current then 0 else 1) block

  unfoldable pub pack_blocks : IngestionConfig → Packing → List MarkdownBlock → Packing
  pack_blocks config s [] = s
  pack_blocks config s (block ∷ rest) = pack_blocks config (pack_block config s block) rest

  -- The cores behind the first loop, with what is left over.
  unfoldable pub close_cores :
      IngestionConfig → List (List MarkdownBlock) → List MarkdownBlock → List (List MarkdownBlock)
  close_cores config cores [] = cores
  close_cores config [] (block ∷ current) = (block ∷ current) ∷ []
  close_cores config (core ∷ cores) (block ∷ current) =
      let rest = block ∷ current in
      if ltb (count_blocks rest) config.minimum_chunk_tokens
        && leb (count_blocks (core ++ rest)) config.maximum_chunk_tokens
      then (core ++ rest) ∷ cores
      else rest ∷ core ∷ cores

  unfoldable pub final_cores : IngestionConfig → List MarkdownBlock → List (List MarkdownBlock)
  final_cores config blocks =
      let s = pack_blocks config (record { cores = []; current = []; current_count = 0 }) blocks in
      rebalance_final_core config (close_cores config s.cores s.current)

  unfoldable pub pack_document : IngestionConfig → List MarkdownBlock → List ChunkDraft
  pack_document config blocks = drafts_from config [] (reversed (final_cores config blocks))

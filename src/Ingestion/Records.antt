-- ===== src/Ingestion/Records.antt =====
-- The rest of ingestion/src/enterprise_ai_ingestion/chunker.py: the division of a block that is too
-- large, the records of the chunks, their checks, and `chunk_document`. The division of a text into
-- sentences, lines, words and groups of words, the hashes and the identifiers that are drawn from them,
-- and the size of a text in bytes are parameters; of a record the fields that are only copied from the
-- document's metadata are left out.
use enterprise_ai_knowledge.Common.{
  any_of, ◌∷◌, ℕ, ◌||◌, true, suc, some, not, none, min, max, map, ltb, length, leb, keep_if,
  is_empty, flat_map, false, if◌then◌else◌, contains, codes, all_of, [], Text, Option, List, Bool,
  ◌==◌, ◌++◌, ◌+◌, ◌&&◌, list_eq, nat_eq,
}
use enterprise_ai_knowledge.Ingestion.Chunker.{
  pack_document, ChunkDraft, IngestionConfig, Tokenizer, MarkdownBlock, BlockKind,
}
use enterprise_ai_knowledge.Graph.Routing.{is_in, starts_with}
use enterprise_ai_knowledge.Llm.Drafts.{paragraph_break, join_texts}

-- What the chunker takes of a text; `word_groups n` are the slices of n words each.
pub record TextDivision : Type 0 where
  pub sentences : Text → List Text
  pub lines : Text → List Text
  pub words : Text → List Text
  pub word_groups : ℕ → Text → List Text
  pub strip_left : Text → Text
  pub sha256 : Text → Text
  pub chunk_identifier : List Text → ℕ → Text → ℕ
  pub evidence_identifier : ℕ → ℕ
  pub search_context : List Text → Text
  pub byte_size : Text → ℕ

pub record ChunkRecord : Type 0 where
  pub chunk_id : ℕ
  pub chunk_index : ℕ
  pub evidence_id : ℕ
  pub section : Text
  pub section_path : List Text
  pub source_line_start : ℕ
  pub source_line_end : ℕ
  pub text : Text
  pub search_text : Text
  pub approximate_token_count : ℕ
  pub overlap_token_count : ℕ
  pub chunk_content_hash : Text

-- The messages of `ChunkingError`.
pub data ChunkingError : Type 0 where
  invalid_number_of_chunks token_maximum_exceeded byte_maximum_exceeded : ChunkingError
  block_not_preserved empty_chunk headings_only duplicate_text undersized_chunk : ChunkingError

pub data Chunking : Type 0 where
  chunked : List ChunkRecord → Chunking
  refused : ChunkingError → Chunking

abbrev pub keeps_lines : BlockKind → Bool
keeps_lines BlockKind.table = true
keeps_lines BlockKind.code_fence = true
keeps_lines _ = false

unfoldable pub common_prefix_places : List Text → List Text → List Text
common_prefix_places [] path = []
common_prefix_places (value ∷ common) [] = []
common_prefix_places (value ∷ common) (p ∷ path) =
    let rest = common_prefix_places common path in if value == p then value ∷ rest else rest

unfoldable pub common_with : List Text → List MarkdownBlock → List Text
common_with common [] = common
common_with common (block ∷ blocks) =
    common_with (common_prefix_places common block.section_path) blocks

-- `_common_section_path`
unfoldable pub common_section_path : List MarkdownBlock → List Text
common_section_path [] = []
common_section_path (block ∷ blocks) = common_with block.section_path blocks

-- `section_path[-1] if section_path else "Document"`
unfoldable pub heading_of : List Text → Text
heading_of [] = codes "Document"
heading_of (h ∷ []) = h
heading_of (h ∷ next ∷ rest) = heading_of (next ∷ rest)

unfoldable pub lowest_line : ℕ → List MarkdownBlock → ℕ
lowest_line line [] = line
lowest_line line (block ∷ blocks) = lowest_line (min line block.source_line_start) blocks

unfoldable pub highest_line : ℕ → List MarkdownBlock → ℕ
highest_line line [] = line
highest_line line (block ∷ blocks) = highest_line (max line block.source_line_end) blocks

abbrev pub first_line : List MarkdownBlock → ℕ
first_line [] = 0
first_line (block ∷ blocks) = lowest_line block.source_line_start blocks

module _ (tokenizer : Tokenizer) (division : TextDivision) where
  -- The loop over the sentences: the pieces, with the current one.
  unfoldable pub pieces_from : ℕ → Text → List Text → List Text
  pieces_from maximum current [] = if is_empty current then [] else current ∷ []
  pieces_from maximum current (sentence ∷ rest) =
      let candidate = tokenizer.strip (current ++ 32 ∷ sentence) in
      let closed = pieces_from maximum sentence rest in
      let extended = pieces_from maximum candidate rest in
      if not (is_empty current) && ltb maximum (tokenizer.count candidate)
      then current ∷ closed
      else extended

  abbrev pub final_pieces : ℕ → Text → List Text
  final_pieces maximum piece =
      if leb (tokenizer.count piece) maximum then piece ∷ [] else division.word_groups maximum piece

  -- `_split_text`
  unfoldable pub split_text : Text → MarkdownBlock → ℕ → ℕ → List MarkdownBlock
  split_text text block maximum source_line =
      map
        (λ piece. record block {
          text = piece;
          source_line_start = source_line;
          source_line_end = max source_line block.source_line_end;
        })
        (keep_if (λ piece. not (is_empty (tokenizer.strip piece)))
          (flat_map (final_pieces maximum) (pieces_from maximum [] (division.sentences text))))

  -- The loop over the lines of a block, from an offset on.
  unfoldable pub split_lines_from : MarkdownBlock → ℕ → ℕ → List Text → List MarkdownBlock
  split_lines_from block maximum offset [] = []
  split_lines_from block maximum offset (line ∷ rest) =
      split_text line block maximum (min (block.source_line_start + offset) block.source_line_end)
      ++ split_lines_from block maximum (suc offset) rest

  unfoldable pub split_oversized_block : ℕ → MarkdownBlock → List MarkdownBlock
  split_oversized_block maximum block =
      let line_parts = division.lines block.text in
      if leb (tokenizer.count block.text) maximum
      then block ∷ []
      else if ltb 1 (length line_parts) && not (keeps_lines block.kind)
      then split_lines_from block maximum 0 line_parts
      else split_text block.text block maximum block.source_line_start

  -- `_text`
  unfoldable pub text_of : List MarkdownBlock → Text
  text_of blocks =
      tokenizer.strip (join_texts paragraph_break (map (λ (b : MarkdownBlock). b.text) blocks))

  -- `_record`
  unfoldable pub record_of : ChunkDraft → ℕ → ChunkRecord
  record_of draft index =
      let text = text_of draft.blocks in
      let content_hash = division.sha256 text in
      let section_path = common_section_path draft.blocks in
      let chunk_id = division.chunk_identifier section_path index content_hash in
      record {
        chunk_id = chunk_id;
        chunk_index = index;
        evidence_id = division.evidence_identifier chunk_id;
        section = heading_of section_path;
        section_path = section_path;
        source_line_start = first_line draft.blocks;
        source_line_end = highest_line 0 draft.blocks;
        text = text;
        search_text = division.search_context section_path ++ (paragraph_break ++ text);
        approximate_token_count = tokenizer.count text;
        overlap_token_count = draft.overlap_token_count;
        chunk_content_hash = content_hash;
      }

  unfoldable pub records_from : ℕ → List ChunkDraft → List ChunkRecord
  records_from index [] = []
  records_from index (draft ∷ drafts) = record_of draft index ∷ records_from (suc index) drafts

  -- `_validate_coverage`, for one block.
  unfoldable pub is_preserved : List ChunkRecord → MarkdownBlock → Bool
  is_preserved records block =
      any_of (λ (r : ChunkRecord). is_in block.text r.text) records
      || all_of
          (λ token. is_in token (join_texts (10 ∷ []) (map (λ (r : ChunkRecord). r.text) records)))
          (division.words block.text)

  unfoldable pub has_headings_only : Text → Bool
  has_headings_only text =
      let nonblank_lines =
        keep_if (λ line. not (is_empty (tokenizer.strip line))) (division.lines text) in
      not (is_empty nonblank_lines)
      && all_of (λ line. starts_with (35 ∷ []) (division.strip_left line)) nonblank_lines

  -- The loop of `_validate_chunk_quality`, with the texts so far and the number of all records.
  unfoldable pub quality_error :
      IngestionConfig → ℕ → List Text → List ChunkRecord → Option ChunkingError
  quality_error config total primary_texts [] = none
  quality_error config total primary_texts (r ∷ records) =
      let rest = quality_error config total (r.text ∷ primary_texts) records in
      if is_empty (tokenizer.strip r.text)
      then some ChunkingError.empty_chunk
      else if has_headings_only r.text
      then some ChunkingError.headings_only
      else if contains primary_texts r.text
      then some ChunkingError.duplicate_text
      else if ltb r.approximate_token_count config.minimum_chunk_tokens && ltb 1 total
      then some ChunkingError.undersized_chunk
      else rest

  -- `chunk_document`, of the blocks of the document's sections.
  unfoldable pub chunk_document : IngestionConfig → List MarkdownBlock → Chunking
  chunk_document config blocks =
      let expanded = flat_map (split_oversized_block config.maximum_chunk_tokens) blocks in
      let drafts = pack_document tokenizer config expanded in
      let records = records_from 0 drafts in
      if is_empty drafts || ltb config.maximum_chunks_per_document (length drafts)
      then refused ChunkingError.invalid_number_of_chunks
      else if any_of
          (λ (r : ChunkRecord). ltb config.maximum_chunk_tokens r.approximate_token_count) records
      then refused ChunkingError.token_maximum_exceeded
      else if any_of
          (λ (r : ChunkRecord). ltb config.maximum_chunk_text_bytes (division.byte_size r.text))
          records
      then refused ChunkingError.byte_maximum_exceeded
      else if not (all_of (is_preserved records) blocks)
      then refused ChunkingError.block_not_preserved
      else elim (quality_error config (length records) [] records) [
        | some error ↦ refused error
        | none ↦ chunked records
      ]

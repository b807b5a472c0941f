-- ===== src/Ingestion/Tests.antt =====
-- Chunks of a document of four blocks, with a tokenizer that counts characters.
use enterprise_ai_knowledge.Ingestion.Chunker.Overlaps.{pack_document-Overlapped, Overlapped}
use enterprise_ai_knowledge.Ingestion.Chunker.{MarkdownBlock}
use enterprise_ai_knowledge.Common.{
  ◌≡◌, ◌∷◌, ℕ, take, refl, length, flat_map, [], List, list_eq, nat_eq,
}
use enterprise_ai_knowledge.Ingestion.Records.{
  quality_error, has_headings_only, highest_line, lowest_line, heading_of, common_prefix_places,
  common_with, common_section_path, text_of, record_of, records_from, is_preserved, chunked,
  split_oversized_block, TextDivision, ChunkRecord, chunk_document, Chunking,
}
use enterprise_ai_knowledge.Ingestion.Chunker.{
  reversed, last_path, paths_compatible, shrink_overlap, overlap_from, taken_overlap, draft_of,
  drafts_from, count_blocks, blocks_of, runs_from, rebalance, rebalance_final_core, close_cores,
  add_block, must_close, open_core, pack_block, pack_blocks, BlockKind, final_cores, MarkdownBlock,
  Tokenizer, pack_document, IngestionConfig,
}
use enterprise_ai_knowledge.Llm.Drafts.{join_texts}
use enterprise_ai_knowledge.Graph.Routing.{starts_with, is_in}

abbrev block_of : ℕ → MarkdownBlock
block_of n = record {
  kind = BlockKind.paragraph;
  text = n ∷ n ∷ n ∷ [];
  source_line_start = n;
  source_line_end = n;
  section_path = [];
}

abbrev tokenizer : Tokenizer
tokenizer = record { count = length; strip = λ t. t }

abbrev config : IngestionConfig
config = record {
  target_chunk_tokens = 7;
  minimum_chunk_tokens = 2;
  maximum_chunk_tokens = 14;
  overlap_tokens = 3;
  maximum_chunks_per_document = 5;
  maximum_chunk_text_bytes = 100;
}

abbrev document : List MarkdownBlock
document = block_of 1 ∷ block_of 2 ∷ block_of 3 ∷ block_of 4 ∷ []

abbrev division : TextDivision
division = record {
  sentences = λ t. t ∷ [];
  lines = λ t. t ∷ [];
  words = λ t. t ∷ [];
  word_groups = λ n t. take n t ∷ [];
  strip_left = λ t. t;
  sha256 = λ t. t;
  chunk_identifier = λ path n t. n;
  evidence_identifier = λ n. n;
  search_context = λ path. [];
  byte_size = length;
}

packed : length (pack_document tokenizer config document) ≡ 2
unfolding pack_document final_cores pack_blocks pack_block open_core must_close add_block
    close_cores rebalance_final_core rebalance runs_from blocks_of count_blocks join_texts
    drafts_from draft_of taken_overlap overlap_from shrink_overlap paths_compatible last_path
    reversed
packed = refl

pack_document-Overlapped_example :
    (cores : List (List MarkdownBlock)) × (flat_map (λ core. core) cores ≡ document)
    × Overlapped tokenizer config [] cores (pack_document tokenizer config document)
pack_document-Overlapped_example = pack_document-Overlapped tokenizer config document

abbrev records_in : Chunking → List ChunkRecord
records_in (chunked records) = records
records_in _ = []

abbrev records : List ChunkRecord
records = records_in (chunk_document tokenizer division config document)

chunked_run : chunk_document tokenizer division config document ≡ chunked records
unfolding chunk_document split_oversized_block records_from record_of text_of common_section_path
    common_with common_prefix_places heading_of lowest_line highest_line is_preserved
    has_headings_only quality_error is_in starts_with flat_map pack_document final_cores pack_blocks
    pack_block open_core must_close add_block close_cores rebalance_final_core rebalance runs_from
    blocks_of count_blocks join_texts drafts_from draft_of taken_overlap overlap_from shrink_overlap
    paths_compatible last_path reversed
chunked_run = refl

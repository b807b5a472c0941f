-- ===== src/Llm/Response/Analysis.antt =====
-- `render_analysis_result` and `analysis_response` of
-- backend/src/enterprise_ai/llm/response_service.py. Of an analysis only the texts are kept; the
-- printing of a number is a parameter.
use enterprise_ai_knowledge.Common.{
  ◌∷◌, ℕ, ◌||◌, true, take, some, not, none, nat_beq, map, is_empty, flat_map, false, if◌then◌else◌,
  codes, [], Text, Option, List, Bool, ◌++◌,
}
use enterprise_ai_knowledge.Llm.Drafts.{paragraph_break, join_texts}
use enterprise_ai_knowledge.Llm.Response.{GroundedAnswer, LlmSettings}

pub record AnalysisItem : Type 0 where
  pub key : Text
  pub count : ℕ
  pub incident_ids : List Text

-- `AnalysisResult` of tools/python_analysis/models.py, as it is rendered.
pub record RenderedAnalysis : Type 0 where
  pub operation : Text
  pub is_root_causes : Bool
  pub summary : Text
  pub items : List AnalysisItem
  pub scalar_value : Option Text
  pub statistics : List (Text × Text)
  pub row_count_considered : ℕ
  pub row_count_excluded : ℕ
  pub algorithm_version : Text
  pub taxonomy_version : Option Text

abbrev pub cell_character : ℕ → Text
cell_character c =
    if nat_beq c 124
    then 92 ∷ 124 ∷ []
    else if nat_beq c 13 || nat_beq c 10
    then 32 ∷ []
    else c ∷ []

unfoldable pub markdown_cell : Text → Text
markdown_cell value = flat_map cell_character value

abbrev pub lines : List Text → Text
lines rows = join_texts (10 ∷ []) rows

module _ (decimal : ℕ → Text) where
  unfoldable pub item_row : AnalysisItem → Text
  item_row item =
      let incidents = join_texts (codes ", ") (map markdown_cell item.incident_ids) in
      codes "| "
      ++ (markdown_cell item.key
          ++ (codes " | "
              ++ (decimal item.count
                  ++ (codes " | "
                      ++ ((if is_empty incidents then 8212 ∷ [] else incidents) ++ codes " |")))))

  -- The section of the items, of the value, or of the statistics: the first that there is.
  unfoldable pub value_section : RenderedAnalysis → List Text
  value_section result =
      if not (is_empty result.items)
      then lines (
          (codes "| "
            ++ ((if result.is_root_causes then codes "Root cause" else codes "Category")
                ++ codes " | Count | Supporting incidents |"))
          ∷ codes "|---|---:|---|"
          ∷ map item_row result.items)
        ∷ []
      else elim result.scalar_value [
        | some value ↦ (codes "Result: " ++ value) ∷ []
        | none ↦
            if is_empty result.statistics
            then []
            else lines (
                codes "| Statistic | Value |"
                ∷ codes "|---|---:|"
                ∷ map
                    (λ (s : Text × Text).
                      codes "| " ++ (markdown_cell s.0 ++ (codes " | " ++ (s.1 ++ codes " |"))))
                    result.statistics)
              ∷ []
      ]

  unfoldable pub provenance_section : RenderedAnalysis → Text
  provenance_section result = lines (
      codes "Provenance"
      ∷ (codes "- Operation: `" ++ (result.operation ++ codes "`"))
      ∷ (codes "- Authorized rows considered: " ++ decimal result.row_count_considered)
      ∷ (codes "- Rows excluded: " ++ decimal result.row_count_excluded)
      ∷ (codes "- Algorithm version: `" ++ (markdown_cell result.algorithm_version ++ codes "`"))
      ∷ elim result.taxonomy_version [
        | none ↦ []
        | some version ↦
            (codes "- Taxonomy version: `" ++ (markdown_cell version ++ codes "`")) ∷ []
      ])

  unfoldable pub render_analysis_result : RenderedAnalysis → Text
  render_analysis_result result =
      join_texts paragraph_break
        (result.summary ∷ (value_section result ++ provenance_section result ∷ []))

  unfoldable pub analysis_response : LlmSettings → RenderedAnalysis → GroundedAnswer
  analysis_response settings analysis = record {
    answer_text = take settings.llm_max_answer_characters (render_analysis_result analysis);
    citations = [];
    provider = codes "deterministic";
    model = codes "typed-analysis";
    deterministic_fallback_used = false;
    deterministic_analysis_rendering_used = true;
    fallback_reason = none;
    insufficient_evidence = false;
  }

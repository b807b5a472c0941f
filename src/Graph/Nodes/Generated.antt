-- ===== src/Graph/Nodes/Generated.antt =====
-- What `generate_response` does to the flags of the response.
use enterprise_ai_knowledge.Common.{arith, ◌≡◌, true, some, inr, inl, Text, Option-cases}
use enterprise_ai_knowledge.Graph.Services.{Services}
use enterprise_ai_knowledge.Graph.State.{
  Update, GraphState, merge, is_valid_response, GroundedResponse, AnalysisResult,
}
use enterprise_ai_knowledge.Graph.Nodes.Response.{response_update, grounded_update}
use enterprise_ai_knowledge.Graph.Nodes.Tame.{keeps_events, keeps_status, is_sound}

module _ (v : Services)
    (valid : (query : Text) (a : AnalysisResult) (r : GroundedResponse)
      → v.analysis_response query a ≡ some r
      → is_valid_response r ≡ true) where
  pub grounded_update-is_sound :
      (s : GraphState) (query : Text) (r : GroundedResponse) (u : Update)
      → grounded_update v s query ≡ some (r, u)
      → is_sound s ≡ true
      → (is_sound (merge s u) ≡ true) × (keeps_status u ≡ true) × (keeps_events u ≡ true)
  unfolding grounded_update response_update merge
  grounded_update-is_sound s query r u h sound = elim (Option-cases s.analysis_result) [
    | inl absent ↦ elim (Option-cases s.research_result) [
      | inl none_found ↦ ground arith
      | inr (research, found) ↦ ground arith
    ]
    | inr (a, present) ↦ elim (Option-cases (v.analysis_response query a)) [
      | inl failed ↦ ground arith
      | inr (g, given) ↦ let fits = valid query a g given in ground arith
    ]
  ]

-- ===== src/Graph/Nodes/Carried.antt =====
-- Every node between the first and the closing ones tells quiet events and leaves the flags sound.
use enterprise_ai_knowledge.Graph.Nodes.Tame.{
  classify_intent-tame, cross_document_research-tame, deny_request-tame, direct_response-tame,
  every, execute_mcp_tool-tame, is_sound, load_memory-tame, merge-tame, prepare_output-tame,
  python_analysis-tame, resolve_followup_context-tame, simple_retrieval-tame, supervisor-tame, tame,
  unsupported-tame, update_memory-tame, validate_evidence-tame, validate_request-tame,
  validate_response_citations-tame,
}
use enterprise_ai_knowledge.Graph.Nodes.Quiet.{
  Quiet, classify_intent-Quiet, cross_document_research-Quiet, deny_request-Quiet,
  direct_response-Quiet, execute_mcp_tool-Quiet, generate_response-Quiet, load_memory-Quiet,
  prepare_output-Quiet, python_analysis-Quiet, resolve_followup_context-Quiet,
  simple_retrieval-Quiet, supervisor-Quiet, unsupported-Quiet, update_memory-Quiet,
  validate_evidence-Quiet, validate_request-Quiet, validate_response_citations-Quiet,
}
use enterprise_ai_knowledge.Graph.Nodes.Response.{
  grounded_update, deny_request, direct_response, unsupported, python_analysis, execute_mcp_tool,
  generate_response, validate_response_citations,
}
use enterprise_ai_knowledge.Graph.Nodes.Closing.{prepare_output, update_memory}
use enterprise_ai_knowledge.Common.{
  ◌≡◌, true, some, refl, none, inr, inl, false, arith, Text, Option-cases, Bool,
}
use enterprise_ai_knowledge.Graph.State.{
  merge, is_valid_response, GroundedResponse, AnalysisResult, GraphState,
}
use enterprise_ai_knowledge.Graph.Topology.{Node}
use enterprise_ai_knowledge.Graph.Services.{Body, Services}
use enterprise_ai_knowledge.Graph.Nodes.Guarded.{guarded-Carried, Carried, FineBody}
use enterprise_ai_knowledge.Graph.Nodes.{node}
use enterprise_ai_knowledge.Graph.Nodes.Generated.{grounded_update-is_sound}
use enterprise_ai_knowledge.Graph.Nodes.Request.{
  supervisor, classify_intent, resolve_followup_context, load_memory, validate_request,
}
use enterprise_ai_knowledge.Graph.Nodes.Retrieval.{validate_evidence, simple_retrieval}
use enterprise_ai_knowledge.Graph.Nodes.Research.{cross_document_research}

abbrev pub is_ordinary : Node → Bool
is_ordinary Node.initialize_request = false
is_ordinary Node.handle_failure = false
is_ordinary Node.finalize_execution = false
is_ordinary n = true

tame_body :
    (s : GraphState) (body : Body)
    → is_sound s ≡ true
    → Quiet body.0
    → every tame body.1 ≡ true
    → FineBody s body
tame_body s (contents, none) sound quiet h = quiet
tame_body s (contents, some u) sound quiet h =
    (quiet, merge-tame s u h sound, ground arith, ground arith)

module _ (v : Services)
    (valid : (query : Text) (a : AnalysisResult) (r : GroundedResponse)
      → v.analysis_response query a ≡ some r
      → is_valid_response r ≡ true) where
  generate_response-Fine : (s : GraphState) → is_sound s ≡ true → FineBody s (generate_response v s)
  unfolding generate_response merge
  generate_response-Fine s sound = elim (Option-cases s.resolved_query) [
    | inl e ↦ rw (e, generate_response) (refl, tt)
    | inr (query, e) ↦ elim (Option-cases (grounded_update v s query)) [
      | inl f ↦ rw (e, f, generate_response) (refl, tt)
      | inr ((r, u), f) ↦
          let quiet = rw (e, f, generate_response) at (generate_response-Quiet v s) in
          let fine = grounded_update-is_sound v valid s query r u f sound in
          rw (e, f, generate_response) (quiet, fine.0, fine.1, fine.2)
    ]
  ]

  pub node-Carried :
      (n : Node) (s : GraphState)
      → is_ordinary n ≡ true
      → is_sound s ≡ true
      → Carried s (node v n s)
  unfolding node
  node-Carried Node.initialize_request s ordinary sound = absurd (ground arith)
  node-Carried Node.validate_request s ordinary sound =
      guarded-Carried v Node.validate_request s (validate_request v s) sound (
        tame_body s (validate_request v s) sound (validate_request-Quiet v s)
          (validate_request-tame v s))
  node-Carried Node.load_memory s ordinary sound =
      guarded-Carried v Node.load_memory s (load_memory v s) sound
        (tame_body s (load_memory v s) sound (load_memory-Quiet v s) (load_memory-tame v s))
  node-Carried Node.resolve_followup_context s ordinary sound =
      guarded-Carried v Node.resolve_followup_context s (resolve_followup_context v s) sound (
        tame_body s (resolve_followup_context v s) sound (resolve_followup_context-Quiet v s)
          (resolve_followup_context-tame v s))
  node-Carried Node.classify_intent s ordinary sound =
      guarded-Carried v Node.classify_intent s (classify_intent v s) sound (
        tame_body s (classify_intent v s) sound (classify_intent-Quiet v s)
          (classify_intent-tame v s))
  node-Carried Node.supervisor s ordinary sound =
      guarded-Carried v Node.supervisor s (supervisor v s) sound
        (tame_body s (supervisor v s) sound (supervisor-Quiet v s) (supervisor-tame v s))
  node-Carried Node.simple_retrieval s ordinary sound =
      guarded-Carried v Node.simple_retrieval s (simple_retrieval v s) sound (
        tame_body s (simple_retrieval v s) sound (simple_retrieval-Quiet v s)
          (simple_retrieval-tame v s))
  node-Carried Node.cross_document_research s ordinary sound =
      guarded-Carried v Node.cross_document_research s (cross_document_research v s) sound (
        tame_body s (cross_document_research v s) sound (cross_document_research-Quiet v s)
          (cross_document_research-tame v s))
  node-Carried Node.validate_evidence s ordinary sound =
      guarded-Carried v Node.validate_evidence s (validate_evidence v s) sound (
        tame_body s (validate_evidence v s) sound (validate_evidence-Quiet v s)
          (validate_evidence-tame v s))
  node-Carried Node.direct_response s ordinary sound =
      guarded-Carried v Node.direct_response s direct_response sound
        (tame_body s direct_response sound direct_response-Quiet direct_response-tame)
  node-Carried Node.deny_request s ordinary sound =
      guarded-Carried v Node.deny_request s (deny_request s) sound
        (tame_body s (deny_request s) sound (deny_request-Quiet s) (deny_request-tame s))
  node-Carried Node.unsupported s ordinary sound =
      guarded-Carried v Node.unsupported s unsupported sound
        (tame_body s unsupported sound unsupported-Quiet unsupported-tame)
  node-Carried Node.python_analysis s ordinary sound =
      guarded-Carried v Node.python_analysis s (python_analysis v s) sound (
        tame_body s (python_analysis v s) sound (python_analysis-Quiet v s)
          (python_analysis-tame v s))
  node-Carried Node.execute_mcp_tool s ordinary sound =
      guarded-Carried v Node.execute_mcp_tool s (execute_mcp_tool v s) sound (
        tame_body s (execute_mcp_tool v s) sound (execute_mcp_tool-Quiet v s)
          (execute_mcp_tool-tame v s))
  node-Carried Node.generate_response s ordinary sound =
      guarded-Carried v Node.generate_response s (generate_response v s) sound
        (generate_response-Fine s sound)
  node-Carried Node.validate_citations s ordinary sound =
      guarded-Carried v Node.validate_citations s (validate_response_citations s) sound (
        tame_body s (validate_response_citations s) sound (validate_response_citations-Quiet s)
          (validate_response_citations-tame s))
  node-Carried Node.prepare_output s ordinary sound =
      guarded-Carried v Node.prepare_output s (prepare_output s) sound
        (tame_body s (prepare_output s) sound (prepare_output-Quiet s) (prepare_output-tame s))
  node-Carried Node.update_memory s ordinary sound =
      guarded-Carried v Node.update_memory s (update_memory v s) sound
        (tame_body s (update_memory v s) sound (update_memory-Quiet v s) (update_memory-tame v s))
  node-Carried Node.handle_failure s ordinary sound = absurd (ground arith)
  node-Carried Node.finalize_execution s ordinary sound = absurd (ground arith)

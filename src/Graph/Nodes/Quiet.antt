-- ===== src/Graph/Nodes/Quiet.antt =====
-- What the nodes tell: events of the known types, and none of them the final event.
use mathlib.Core.Option
use enterprise_ai_knowledge.Graph.Nodes.Response.{
  citations_valid, deny_request, direct_response, unsupported, python_analysis, execute_mcp_tool,
  generate_response, validate_response_citations, call_tool,
}
use enterprise_ai_knowledge.Common.{
  ◌∷◌, inr, inl, flat_map, [], Option-cases, Bool-cases, All-append, string_eq, ◌≡◌, true, refl,
  not, contains, arith, List, Bool, All, ◌&&◌,
}
use enterprise_ai_knowledge.Graph.Topology.{Node}
use enterprise_ai_knowledge.Graph.Nodes.Request.{
  supervisor, classify_intent, validate_request, load_memory, resolve_followup_context,
}
use enterprise_ai_knowledge.Graph.Services.{node_events, Services}
use enterprise_ai_knowledge.Graph.Reducers.{event_types, Content}
use enterprise_ai_knowledge.Graph.State.{ResearchResult, WorkerSummary, GraphState}
use enterprise_ai_knowledge.Api.Stream.{is_final}
use enterprise_ai_knowledge.Graph.Nodes.Retrieval.{validate_evidence, simple_retrieval}
use enterprise_ai_knowledge.Graph.Nodes.Closing.{update_memory, prepare_output}
use enterprise_ai_knowledge.Graph.Nodes.Research.{
  closing_events, result_events, worker_events, cross_document_research,
}

abbrev pub is_quiet : Content → Bool
is_quiet c = contains event_types c.event_type && not (is_final c.event_type)

abbrev pub Quiet : List Content → Type 0
Quiet contents = All (λ (c : Content). is_quiet c ≡ true) contents

pub node_events-Quiet : (n : Node) → Quiet (node_events n)
node_events-Quiet n = (refl, (refl, tt))

pub validate_request-Quiet : (v : Services) (s : GraphState) → Quiet (validate_request v s).0
unfolding validate_request
validate_request-Quiet v s = node_events-Quiet Node.validate_request

pub load_memory-Quiet : (v : Services) (s : GraphState) → Quiet (load_memory v s).0
unfolding load_memory
load_memory-Quiet v s = ground arith

pub resolve_followup_context-Quiet :
    (v : Services) (s : GraphState) → Quiet (resolve_followup_context v s).0
unfolding resolve_followup_context
resolve_followup_context-Quiet v s = (refl, tt)

pub classify_intent-Quiet : (v : Services) (s : GraphState) → Quiet (classify_intent v s).0
unfolding classify_intent
classify_intent-Quiet v s = ground arith

pub supervisor-Quiet : (v : Services) (s : GraphState) → Quiet (supervisor v s).0
unfolding supervisor
supervisor-Quiet v s = ground arith

pub simple_retrieval-Quiet : (v : Services) (s : GraphState) → Quiet (simple_retrieval v s).0
unfolding simple_retrieval
simple_retrieval-Quiet v s = ground arith

pub validate_evidence-Quiet : (v : Services) (s : GraphState) → Quiet (validate_evidence v s).0
unfolding validate_evidence
validate_evidence-Quiet v s = ground arith

pub direct_response-Quiet : Quiet direct_response.0
unfolding direct_response
direct_response-Quiet = node_events-Quiet Node.direct_response

pub deny_request-Quiet : (s : GraphState) → Quiet (deny_request s).0
unfolding deny_request
deny_request-Quiet s = node_events-Quiet Node.deny_request

pub unsupported-Quiet : Quiet unsupported.0
unfolding unsupported
unsupported-Quiet = node_events-Quiet Node.unsupported

pub python_analysis-Quiet : (v : Services) (s : GraphState) → Quiet (python_analysis v s).0
unfolding python_analysis
python_analysis-Quiet v s = ground arith

pub execute_mcp_tool-Quiet : (v : Services) (s : GraphState) → Quiet (execute_mcp_tool v s).0
unfolding execute_mcp_tool call_tool
execute_mcp_tool-Quiet v s = ground arith

pub generate_response-Quiet : (v : Services) (s : GraphState) → Quiet (generate_response v s).0
unfolding generate_response
generate_response-Quiet v s = ground arith

pub validate_response_citations-Quiet : (s : GraphState) → Quiet (validate_response_citations s).0
unfolding validate_response_citations
validate_response_citations-Quiet s =
    elim (Option-cases (citations_valid s.citation_validation s.grounded_response)) [
      | inl raised ↦ rw (raised, validate_response_citations) (refl, tt)
      | inr (valid, told) ↦ elim (Bool-cases valid) [
        | inl e ↦ rw (told, e, validate_response_citations) (refl, (refl, tt))
        | inr e ↦ rw (told, e, validate_response_citations) (refl, (refl, tt))
      ]
    ]

pub prepare_output-Quiet : (s : GraphState) → Quiet (prepare_output s).0
unfolding prepare_output
prepare_output-Quiet s = node_events-Quiet Node.prepare_output

pub update_memory-Quiet : (v : Services) (s : GraphState) → Quiet (update_memory v s).0
unfolding update_memory
update_memory-Quiet v s = ground arith

pub worker_events-Quiet : (w : WorkerSummary) → Quiet (worker_events w)
unfolding worker_events
worker_events-Quiet w = elim (Bool-cases w.has_analysis) [
  | inl a ↦ elim (Bool-cases w.failed) [
    | inl f ↦ rw (a, f) (refl, (refl, (refl, (refl, (refl, tt)))))
    | inr f ↦ rw (a, f) (refl, (refl, (refl, (refl, (refl, tt)))))
  ]
  | inr a ↦ elim (Bool-cases w.failed) [
    | inl f ↦ rw (a, f) (refl, (refl, (refl, (refl, tt))))
    | inr f ↦ rw (a, f) (refl, (refl, (refl, (refl, tt))))
  ]
]

pub flat_map-Quiet : (xs : List WorkerSummary) → Quiet (flat_map worker_events xs)
unfolding flat_map
flat_map-Quiet [] = tt
flat_map-Quiet (w ∷ rest) =
    All-append _ (worker_events w) (flat_map worker_events rest) (worker_events-Quiet w)
      (flat_map-Quiet rest)

pub closing_events-Quiet : (r : ResearchResult) → Quiet (closing_events r)
unfolding closing_events
closing_events-Quiet r = ground arith

pub result_events-Quiet : (r : ResearchResult) → Quiet (result_events r)
unfolding result_events
result_events-Quiet r = (
  refl,
  (
    refl,
    (
      refl,
      All-append _ (flat_map worker_events r.worker_results) (closing_events r)
          (flat_map-Quiet r.worker_results) (closing_events-Quiet r),
    ),
  ),
)

pub cross_document_research-Quiet :
    (v : Services) (s : GraphState) → Quiet (cross_document_research v s).0
unfolding cross_document_research
cross_document_research-Quiet v s = elim (Bool-cases v.research_enabled) [
  | inr disabled ↦ rw disabled tt
  | inl enabled ↦
      elim (Option-cases (Option.bind s.resolved_query (λ query. v.research query s.principal))) [
        | inl e ↦ rw (enabled, e) (refl, (refl, (refl, tt)))
        | inr (r, e) ↦ rw (enabled, e) (refl, (refl, result_events-Quiet r))
      ]
]

-- ===== src/Graph/Nodes/Research.antt =====
-- graph/nodes.py: `cross_document_research`.
use mathlib.Core.Option
use enterprise_ai_knowledge.Common.{
  nat_eq, ◌∷◌, ◌||◌, true, some, not, none, map, is_empty, flat_map, false, if◌then◌else◌, concat,
  any_of, [], String, List, Bool, ◌==◌, ◌++◌, ◌&&◌,
}
use enterprise_ai_knowledge.Graph.State.{
  ErrorCode, no_update, GraphState, CoverageStatus, WorkerSummary, ResearchResult,
}
use enterprise_ai_knowledge.Graph.Services.{content, Body, Services}
use enterprise_ai_knowledge.Graph.Reducers.{Content, EventStatus}
use enterprise_ai_knowledge.Graph.Topology.{Node}
use enterprise_ai_knowledge.Research.Aggregation.{ResearchEvidenceEntry}

abbrev emission : String → EventStatus → Content
emission = content Node.cross_document_research

-- The events of one worker's result.
unfoldable pub worker_events : WorkerSummary → List Content
worker_events w =
    emission "research.worker_dispatched" EventStatus.completed
    ∷ emission "research.worker_started" EventStatus.started
    ∷ emission "research.retrieval_completed" EventStatus.completed
    ∷ ((if w.has_analysis
          then emission "research.analysis_completed" EventStatus.completed ∷ []
          else [])
        ++ (if w.failed
            then emission "research.worker_failed" EventStatus.failed
            else emission "research.worker_completed" EventStatus.completed)
          ∷ [])

abbrev pub is_partial : CoverageStatus → Bool
is_partial CoverageStatus.sufficient = false
is_partial CoverageStatus.failed = false
is_partial status = true

abbrev pub is_failed : CoverageStatus → Bool
is_failed CoverageStatus.failed = true
is_failed status = false

-- The events behind the last worker.
unfoldable pub closing_events : ResearchResult → List Content
closing_events r =
    let failed = is_failed r.status in
    (emission "research.round_completed" EventStatus.completed ∷ [])
    ++ ((if any_of (λ (w : WorkerSummary). not (w.depth == 0)) r.worker_results
          then emission "research.child_tasks_created" EventStatus.completed ∷ []
          else [])
        ++ ((emission "research.aggregation_completed" EventStatus.completed
              ∷ emission "research.coverage_assessed" EventStatus.completed
              ∷ [])
            ++ ((if r.exhausted
                  then emission "research.budget_exhausted" EventStatus.warning ∷ []
                  else [])
                ++ ((if (not (is_empty r.warnings) || not (is_empty r.gaps) || is_partial r.status)
                        && not failed
                      then emission "research.partial" EventStatus.warning ∷ []
                      else [])
                    ++ (if failed
                        then emission "research.failed" EventStatus.failed ∷ []
                        else if is_partial r.status
                        then []
                        else emission "research.completed" EventStatus.completed ∷ [])))))

-- The events behind the run of the research.
unfoldable pub result_events : ResearchResult → List Content
result_events r =
    emission "research.catalog_completed" EventStatus.completed
      ∷ emission "research.plan_created" EventStatus.completed
      ∷ emission "research.plan_validated" EventStatus.completed
      ∷ flat_map worker_events r.worker_results
    ++ closing_events r

-- The warnings of the result, then its gaps and its conflicts.
unfoldable pub research_warnings : ResearchResult → List String
research_warnings r =
    r.warnings
    ++ (map (λ dimension. concat ("Research gap: " ∷ dimension ∷ [])) r.gaps ++ r.conflicts)

unfoldable pub cross_document_research : Services → GraphState → Body
cross_document_research services s =
    let begun =
      emission "research.started" EventStatus.started
      ∷ emission "research.planning_started" EventStatus.started
      ∷ [] in
    let failed_update = record no_update {
      failure = some true;
      errors =
          some
            (record { code = ErrorCode.research_failed; node = Node.cross_document_research } ∷ []);
      visited_nodes = some (Node.cross_document_research ∷ []);
    } in
    if not services.research_enabled
    then (
      [],
      some (record no_update {
        failure = some true;
        errors = some (
            record { code = ErrorCode.research_disabled; node = Node.cross_document_research }
            ∷ []);
        visited_nodes = some (Node.cross_document_research ∷ []);
      }),
    )
    else elim (Option.bind s.resolved_query (λ query. services.research query s.principal)) [
      | none ↦ (begun ++ emission "research.failed" EventStatus.failed ∷ [], some failed_update)
      | some result ↦ (
        begun ++ result_events result,
        some (record no_update {
          research_result = some result;
          retrieved_evidence =
              some (map (λ (e : ResearchEvidenceEntry). e.evidence) result.entries);
          warnings = some (research_warnings result);
          visited_nodes = some (Node.cross_document_research ∷ []);
          failure = some (is_failed result.status);
        }),
      )
    ]

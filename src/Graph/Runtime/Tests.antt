-- ===== src/Graph/Runtime/Tests.antt =====
-- Requests of a session over services that find one document, and instances of the theorems on them.
use enterprise_ai_knowledge.Graph.Numbered.{written}
use enterprise_ai_knowledge.Graph.Nodes.Request.{
  initialize, validate_request, load_memory, resolve_followup_context, classify_intent, supervisor,
  supervised_route,
}
use enterprise_ai_knowledge.Graph.Nodes.Retrieval.{
  simple_retrieval, validate_evidence, is_valid_evidence,
}
use enterprise_ai_knowledge.Graph.Nodes.Response.{
  generate_response, grounded_update, response_update, validate_response_citations,
}
use enterprise_ai_knowledge.Graph.Nodes.Closing.{
  prepare_output, prepared_text, update_memory, effective_status, finalize, output_of,
  is_valid_output,
}
use enterprise_ai_knowledge.Graph.Reducers.{
  EventStatus, Content, emit_all, next_number, append_events, append_text, add_unique,
  append_unique, append, emit,
}
use enterprise_ai_knowledge.Graph.Services.{Services, loaded, retrieved, ToolCall, Stored}
use enterprise_ai_knowledge.Common.{
  contains, any_of, ◌&&◌, ◌⊎◌, ◌||◌, nat_eq, All, ◌≡◌, ◌∷◌, ℕ, true, some, refl, not, none, map,
  length, false, codes, arith, ap, [], Text, List, Bool, ◌==◌, ◌++◌, ◌+◌,
}
use enterprise_ai_knowledge.Api.Stream.{chat_event_stream, envelopes, ready, timeout, StreamItem}
use enterprise_ai_knowledge.Graph.Tests.{user_of, rules}
use enterprise_ai_knowledge.Graph.Runtime.{
  claim_of, checkpoint, astream, correlation, initial_state, fresh_state, GraphInput, claim_session,
}
use enterprise_ai_knowledge.Graph.Nodes.Retrieval.{evidence_update, valid_evidence}
use enterprise_ai_knowledge.Research.Aggregation.{same_identity, Source, HybridEvidence}
use enterprise_ai_knowledge.Graph.State.{
  same_evidence, merge, is_valid_response, AnalysisResult, GroundedResponse, GraphState,
}
use enterprise_ai_knowledge.Graph.Runtime.Answered.{Answer}
use enterprise_ai_knowledge.Api.Stream.Accepted.{Fulfilled}
use enterprise_ai_knowledge.Graph.Nodes.Failures.{Passes, guarded-failure, FailsSafely}
use enterprise_ai_knowledge.Graph.Execution.{settle, execute}
use enterprise_ai_knowledge.Graph.Topology.{
  route_node, selected_route, after_operation, next_node, run_state, Node,
}
use enterprise_ai_knowledge.Graph.Nodes.Rejected.{
  validate_evidence-is_servable, chunks_of, Unrepeated, is_servable, merge-validated,
}
use enterprise_ai_knowledge.Graph.Runtime.Served.{astream-Fulfilled, checkpoint-Answer, received}
use enterprise_ai_knowledge.Graph.Runtime.Owners.{claimed-refuses, claims}
use enterprise_ai_knowledge.Api.Stream.Consistent.{stayed}
use enterprise_ai_knowledge.Graph.Nodes.{
  failed_node_events, plain_events, journal_events, failed_update, completed_update, node,
  over_budget, guarded,
}
use enterprise_ai_knowledge.Identity.{AccessLevel, UserRole}
use enterprise_ai_knowledge.Vocabulary.{ProcessingStatus}
use enterprise_ai_knowledge.Graph.Runtime.Sticky.{failed_session}
use enterprise_ai_knowledge.Frontend.Contract.{new_validator, no_output, accept_all}
use enterprise_ai_knowledge.Graph.Routing.{
  starts_with, is_in, requests_inaccessible_access, supervise, classify_terms, classify,
}
use enterprise_ai_knowledge.Security.Authorization.{
  allowed_access_levels, permissions_for_role, has_permission,
}
use enterprise_ai_knowledge.Graph.Journal.{journal_events-Gapless, Gapless}

-- A rendering of an analysis that is no fallback.
abbrev rendered : GroundedResponse
rendered = record {
  answer_text = "Three services.";
  citations = [];
  provider = "deterministic";
  model = "analysis";
  deterministic_fallback_used = false;
  deterministic_analysis_rendering_used = true;
  fallback_reason = none;
  insufficient_evidence = false;
}

abbrev answered : GroundedResponse
answered = record rendered {
  answer_text = "See the handbook.";
  deterministic_analysis_rendering_used = false;
}

abbrev document : ℕ → HybridEvidence
document n = record {
  evidence = record {
    evidence_id = n;
    document_id = n;
    chunk_id = n;
    source_file = n;
    section_path = n;
    source_line_start = 1;
    source_line_end = 9;
    title = n;
    version = 1;
    updated_date = 0;
    access = record { access_level = AccessLevel.internal; allowed_roles = UserRole.analyst ∷ [] };
    chunk_content_hash = n;
    build_fingerprint = 5;
    text = n;
  };
  final_rank = 1;
  hybrid_score = 1;
}

abbrev services : Services
services = record {
  rules = rules;
  strip = λ t. t;
  join_words = λ t. t;
  max_steps = 30;
  max_evidence_items = 20;
  max_warnings = 10;
  research_enabled = true;
  followup_enabled = true;
  load_memory = λ s p. loaded true none;
  resolve_followup = λ t m. (t, false);
  retrieve = λ p t k. retrieved (document 1 ∷ document 2 ∷ []) [] false;
  expected_fingerprint = some 5;
  exact_document_ids = λ t. some [];
  is_untrusted = λ t. t == 2;
  may_analyse = λ p. true;
  analyse = λ p t. some (record { summary = "Three."; items = 3 });
  select_tool = λ t. none;
  execute_tool = λ p k. ToolCall.failed;
  analysis_response = λ t a. some rendered;
  research_response = λ t e p r. none;
  retrieval_response = λ t e p. some (answered, some true);
  research = λ t p. none;
  update_memory = λ s t r p. Stored.unavailable;
}

-- The services as they answer the first request: nothing is remembered yet.
abbrev unremembered : Services
unremembered = record services { load_memory = λ s p. loaded false none }

services_valid :
    (query : Text) (a : AnalysisResult) (r : GroundedResponse)
    → services.analysis_response query a ≡ some r
    → is_valid_response r ≡ true
services_valid query a r h = ground arith

abbrev asked : ℕ → GraphInput
asked n = record {
  request_id = n;
  trace_id = n;
  session_id = 7;
  principal = user_of UserRole.analyst;
  user_message = codes "where is the handbook";
  requested_top_k = 5;
}

abbrev start : GraphState
start = fresh_state (user_of UserRole.analyst)

checkpoint-Answer_example : Answer (correlation (asked 2)) (
    execute services
      (initial_state 4000 (asked 2) (checkpoint 4000 ((unremembered, asked 1) ∷ []) start)))
checkpoint-Answer_example =
    checkpoint-Answer 4000 ((unremembered, asked 1) ∷ []) (user_of UserRole.analyst) services
      (asked 2) (services_valid, tt) services_valid

-- A ping, then every item.
received_all : (xs : List StreamItem) → received (timeout false ∷ map ready xs) ++ [] ≡ xs
received_all [] = refl
received_all (x ∷ xs) = ap (λ l. x ∷ l) (received_all xs)

abbrev streamed : List StreamItem
streamed = astream services 4000 (asked 2) (checkpoint 4000 ((unremembered, asked 1) ∷ []) start)

astream-Fulfilled_example :
    Fulfilled
      (λ n. n)
      (correlation (asked 2))
      (stayed (timeout false ∷ map ready streamed))
      (accept_all
        (envelopes (
          chat_event_stream
            (λ n. n)
            (correlation (asked 2))
            (timeout false ∷ map ready streamed)
            no_output))
        new_validator)
astream-Fulfilled_example =
    astream-Fulfilled 4000 (λ n. n) (λ i j e. e) ((unremembered, asked 1) ∷ [])
      (user_of UserRole.analyst) services (asked 2) (timeout false ∷ map ready streamed) []
      no_output (services_valid, tt) services_valid (received_all streamed)

failed_session_example :
    (execute services (
      initial_state 4000 (asked 3) (
        checkpoint 4000
          ((services, asked 2) ∷ [])
          (record start { failure = true })))).state.processing_status
    ≡ some ProcessingStatus.failed
failed_session_example =
    failed_session 4000 ((services, asked 2) ∷ []) services (asked 3)
      (record start { failure = true }) refl

abbrev viewer_request : GraphInput
viewer_request = record (asked 2) { principal = user_of UserRole.viewer }

claimed-refuses_example :
    claim_session viewer_request
      (claims (asked 1 ∷ []) ((7, claim_of (user_of UserRole.analyst)) ∷ []))
    ≡ none
claimed-refuses_example =
    claimed-refuses (asked 1 ∷ []) ((7, claim_of (user_of UserRole.analyst)) ∷ [])
      (claim_of (user_of UserRole.analyst)) viewer_request refl

abbrev found : GraphState
found = record start { retrieved_evidence = document 1 ∷ document 2 ∷ [] }

abbrev trusted : Source → Bool
trusted source = not (source.text == 2)

merge-validated_example :
    (merge found
      (evidence_update [] (valid_evidence trusted [] found.retrieved_evidence))).retrieved_evidence
    ≡ document 1 ∷ document 2 ∷ []
unfolding valid_evidence evidence_update merge
merge-validated_example = merge-validated trusted [] found

abbrev tested : Source → Bool
tested = is_valid_evidence services start.principal 1 [] []

abbrev let_through : List HybridEvidence
let_through = (valid_evidence tested [] (document 1 ∷ document 2 ∷ [])).0

validate_evidence-is_servable_example :
    All
      (λ (i : HybridEvidence).
        (is_servable services start.principal 1 [] [] i.evidence ≡ true)
        × (any_of (same_evidence i) (document 1 ∷ document 2 ∷ []) ≡ true))
      let_through
    × Unrepeated [] (chunks_of let_through)
    × All
        (λ (i : HybridEvidence).
          (is_servable services start.principal 1 [] [] i.evidence
            && not (contains (chunks_of let_through) i.evidence.chunk_id))
          ≡ false)
        (document 1 ∷ document 2 ∷ [])
    × (length let_through + (valid_evidence tested [] (document 1 ∷ document 2 ∷ [])).1 ≡ 2)
validate_evidence-is_servable_example =
    validate_evidence-is_servable services start.principal 1 [] [] (document 1 ∷ document 2 ∷ [])

guarded-failure_example :
    (((over_budget services start || true) ≡ true)
      × FailsSafely Node.python_analysis start
          (guarded services Node.python_analysis start ([], none)))
    ⊎ (((over_budget services start || true) ≡ false)
        × Passes start ([], none) (guarded services Node.python_analysis start ([], none)))
guarded-failure_example = guarded-failure services Node.python_analysis start ([], none) refl

abbrev first_content : Content
first_content = record {
  event_type = "node.started";
  node = some Node.supervisor;
  status = EventStatus.started;
}

abbrev started : GraphState
started = record start { activity_events = written 0 0 0 0 (first_content ∷ []) }

journal_events-Gapless_example :
    (journal_events started (first_content ∷ []) ≡ written 0 0 0 1 (first_content ∷ []))
    × ((dropped : ℕ) × Gapless
          (0 + dropped)
          (append_events started.activity_events (journal_events started (first_content ∷ [])))
        × (0
              + dropped
              + length (
                  append_events started.activity_events
                    (journal_events started (first_content ∷ [])))
            ≡ 2))
journal_events-Gapless_example =
    journal_events-Gapless started 0 first_content [] ((refl, tt), refl)

-- The second document is rejected by the validation of the evidence, and stays in the state.
handbook_run :
    ((execute services (initial_state 4000 (asked 1) start)).state.response_text
      ≡ some "See the handbook.")
    × ((execute services (initial_state 4000 (asked 1) start)).state.retrieved_evidence
        ≡ document 1 ∷ document 2 ∷ [])
unfolding execute run_state next_node after_operation selected_route route_node node initialize
    guarded over_budget completed_update failed_update journal_events plain_events
    failed_node_events validate_request load_memory resolve_followup_context classify_intent
    supervisor supervised_route simple_retrieval validate_evidence valid_evidence evidence_update
    is_valid_evidence generate_response grounded_update response_update validate_response_citations
    prepare_output prepared_text update_memory effective_status finalize output_of is_valid_output
    settle merge initial_state classify classify_terms supervise requests_inaccessible_access is_in
    starts_with append_unique add_unique append_text append_events next_number emit_all emit append
    has_permission permissions_for_role allowed_access_levels same_evidence same_identity
handbook_run = (refl, refl)

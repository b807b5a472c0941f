-- ===== src/Graph/Tests.antt =====
-- Runs of the graph and instances of its theorems. The state is the pair of marks; the supervisor
-- selects what the scenario says.
use enterprise_ai_knowledge.Common.{
  codes, List, ◌⊎◌, ◌≤◌, ◌≡◌, ◌∷◌, true, some, refl, none, length, false, if◌then◌else◌, arith,
  all_of, [],
}
use enterprise_ai_knowledge.Graph.Topology.{
  route_node, selected_route, after_operation, to, Node, next_node, run, described, Marks,
}
use enterprise_ai_knowledge.Vocabulary.{Intent, Route}
use enterprise_ai_knowledge.Identity.{Principal, UserRole}
use enterprise_ai_knowledge.Graph.Routing.{
  Complexity, starts_with, classify_terms, TextRules, supervise, is_in, classify,
}
use enterprise_ai_knowledge.Graph.Reducers.{EventStatus, Content, EventJournal}
use enterprise_ai_knowledge.Graph.Topology.Runs.{run-graph, Stops}
use enterprise_ai_knowledge.Security.Authorization.{permissions_for_role, has_permission}
use enterprise_ai_knowledge.Graph.Topology.Described.{next_node-described}
use enterprise_ai_knowledge.Graph.Denied.{denied_run, is_idle}

abbrev pub user_of : UserRole → Principal
user_of role = record {
  identity = record { user_id = 1; username = "u"; display_name = "U"; role = role };
  permissions = [];
  authenticated_at = 0;
  expires_at = 10;
}

abbrev act : Route → Node → Marks → Marks
act r Node.supervisor s = record { failure = s.failure; selected_route = some r }
act r n s = s

abbrev fresh_marks : Marks
fresh_marks = record { failure = false; selected_route = none }

abbrev seen : Marks → Marks
seen s = s

run_retrieval :
    (run (act Route.simple_retrieval) seen 15 (to Node.supervisor) fresh_marks).0
    ≡ Node.supervisor ∷ Node.simple_retrieval ∷ Node.validate_evidence ∷ Node.generate_response
      ∷ Node.validate_citations ∷ Node.prepare_output ∷ Node.update_memory ∷ Node.finalize_execution
      ∷ []
unfolding run next_node after_operation selected_route route_node
run_retrieval = refl

run-graph_example :
    Stops
      (run (act Route.simple_retrieval) seen 15 (to Node.initialize_request) fresh_marks)
      Node.initialize_request
    × (length (run (act Route.simple_retrieval) seen 15 (to Node.initialize_request) fresh_marks).0
        ≤ 14)
run-graph_example = run-graph (act Route.simple_retrieval) seen fresh_marks

next_node-described_example :
    ((described Node.direct_response none ≡ Node.handle_failure ∷ [])
      ⊎ (described Node.direct_response (some true) ≡ Node.handle_failure ∷ []))
    ⊎ ((true ≡ true) × (true ≡ true) × (Node.handle_failure ≡ Node.handle_failure))
unfolding next_node after_operation
next_node-described_example =
    next_node-described Node.direct_response Node.handle_failure
      (record { failure = true; selected_route = none }) (ground arith) refl

-- Rules under which every text is of a denied category.
abbrev pub rules : TextRules
rules = record {
  casefold = λ t. t;
  names_word = λ w t. is_in w t;
  is_greeting = λ t. false;
  security_denial_category = λ t. if is_in (codes "secret") t then some 1 else none;
  extract_enterprise_identifiers = λ t. [];
  has_explicit_aggregate_intent = λ t. false;
}

classify_run :
    classify rules (codes "please compare a and b")
    ≡ (Intent.cross_document_research, Complexity.cross_document)
unfolding classify classify_terms is_in starts_with
classify_run = refl

denied_run_example :
    all_of is_idle (run (act Route.deny) seen 15 (to Node.supervisor) fresh_marks).0 ≡ true
unfolding supervise has_permission permissions_for_role
denied_run_example =
    denied_run (act Route.deny) seen 15 fresh_marks Intent.structured_analysis
      (user_of UserRole.viewer) refl refl

abbrev journal : EventJournal
journal = record { request_id = 1; trace_id = 2; session_id = 3; next_sequence = 5; emitted = [] }

abbrev two_contents : List Content
two_contents =
    record {
      event_type = "node.started";
      node = some Node.supervisor;
      status = EventStatus.started;
    }
    ∷ record {
      event_type = "node.completed";
      node = some Node.supervisor;
      status = EventStatus.completed;
    }
    ∷ []

-- ===== src/Graph/Topology.antt =====
-- backend/src/enterprise_ai/graph/builder.py, and `ROUTE_NODE` of graph/routing.py: the nodes, the
-- edges that `build_graph` adds, and the topology that `describe_graph` prints. What the nodes do to
-- the state is a parameter: the edges only read whether a failure is set and the selected route.
pub mod Runs
pub mod Described
pub mod Invariant
use enterprise_ai_knowledge.Common.{
  ◌≡◌, ◌∷◌, ℕ, zero, true, suc, some, none, false, eq_by_code, if◌then◌else◌, arith, [], Option,
  List, Eq, Bool,
}
use enterprise_ai_knowledge.Vocabulary.{Route}

pub data Node : Type 0 where
  initialize_request validate_request load_memory resolve_followup_context : Node
  classify_intent supervisor simple_retrieval cross_document_research : Node
  validate_evidence direct_response deny_request unsupported python_analysis : Node
  execute_mcp_tool generate_response validate_citations prepare_output : Node
  update_memory handle_failure finalize_execution : Node

abbrev pub node_code : Node → ℕ
node_code Node.initialize_request = 0
node_code Node.validate_request = 1
node_code Node.load_memory = 2
node_code Node.resolve_followup_context = 3
node_code Node.classify_intent = 4
node_code Node.supervisor = 5
node_code Node.simple_retrieval = 6
node_code Node.cross_document_research = 7
node_code Node.validate_evidence = 8
node_code Node.direct_response = 9
node_code Node.deny_request = 10
node_code Node.unsupported = 11
node_code Node.python_analysis = 12
node_code Node.execute_mcp_tool = 13
node_code Node.generate_response = 14
node_code Node.validate_citations = 15
node_code Node.prepare_output = 16
node_code Node.update_memory = 17
node_code Node.handle_failure = 18
node_code Node.finalize_execution = 19

pub node_code_injective : (a b : Node) → node_code a ≡ node_code b → a ≡ b
node_code_injective a b h = ground arith

instance abbrev pub node_eq : Eq Node
node_eq = eq_by_code node_code node_code_injective

-- `ROUTE_NODE`
unfoldable pub route_node : Route → Node
route_node Route.simple_retrieval = Node.simple_retrieval
route_node Route.direct_response = Node.direct_response
route_node Route.deny = Node.deny_request
route_node Route.failure = Node.handle_failure
route_node Route.recursive_research = Node.cross_document_research
route_node Route.python_analysis = Node.python_analysis
route_node Route.mcp_tool = Node.execute_mcp_tool
route_node Route.human_approval = Node.unsupported
route_node Route.unsupported = Node.unsupported

-- What the edges read of the state.
pub record Marks : Type 0 where
  pub failure : Bool
  pub selected_route : Option Route

-- Where an edge leads: a node, the end, or a `KeyError` on a state without a selected route.
pub data Target : Type 0 where
  to : Node → Target
  end : Target
  no_route : Target

-- `_after_operation`, `_after_validation` and `_after_retrieval`
unfoldable pub after_operation : Node → Marks → Target
after_operation next marks = if marks.failure then to Node.handle_failure else to next

-- `_selected_route`
unfoldable pub selected_route : Marks → Target
selected_route marks =
    if marks.failure
    then to Node.handle_failure
    else elim marks.selected_route [ none ↦ no_route | some r ↦ to (route_node r) ]

-- The edges of `build_graph`.
unfoldable pub next_node : Node → Marks → Target
next_node Node.initialize_request marks = to Node.validate_request
next_node Node.validate_request marks = after_operation Node.load_memory marks
next_node Node.load_memory marks = after_operation Node.resolve_followup_context marks
next_node Node.resolve_followup_context marks = after_operation Node.classify_intent marks
next_node Node.classify_intent marks = after_operation Node.supervisor marks
next_node Node.supervisor marks = selected_route marks
next_node Node.simple_retrieval marks = after_operation Node.validate_evidence marks
next_node Node.cross_document_research marks = after_operation Node.validate_evidence marks
next_node Node.validate_evidence marks = after_operation Node.generate_response marks
next_node Node.python_analysis marks = after_operation Node.generate_response marks
next_node Node.execute_mcp_tool marks = after_operation Node.prepare_output marks
next_node Node.generate_response marks = after_operation Node.validate_citations marks
next_node Node.validate_citations marks = after_operation Node.prepare_output marks
next_node Node.direct_response marks = after_operation Node.prepare_output marks
next_node Node.deny_request marks = after_operation Node.prepare_output marks
next_node Node.unsupported marks = after_operation Node.prepare_output marks
next_node Node.prepare_output marks = after_operation Node.update_memory marks
next_node Node.update_memory marks = after_operation Node.finalize_execution marks
next_node Node.handle_failure marks = to Node.finalize_execution
next_node Node.finalize_execution marks = end

-- The edges that `describe_graph` lists, in its fields `edges` and `conditional_routes`: the
-- condition is none on a plain edge, and says on a conditional route whether it is the failure's.
unfoldable pub described : Node → Option Bool → List Node
described Node.initialize_request none = Node.validate_request ∷ []
described Node.handle_failure none = Node.finalize_execution ∷ []
described n none = []
described Node.validate_request (some false) = Node.load_memory ∷ []
described Node.validate_request (some true) = Node.handle_failure ∷ []
described Node.load_memory (some false) = Node.resolve_followup_context ∷ []
described Node.load_memory (some true) = Node.handle_failure ∷ []
described Node.resolve_followup_context (some false) = Node.classify_intent ∷ []
described Node.resolve_followup_context (some true) = Node.handle_failure ∷ []
described Node.classify_intent (some false) = Node.supervisor ∷ []
described Node.classify_intent (some true) = Node.handle_failure ∷ []
described Node.simple_retrieval (some false) = Node.validate_evidence ∷ []
described Node.simple_retrieval (some true) = Node.handle_failure ∷ []
described Node.cross_document_research (some false) = Node.validate_evidence ∷ []
described Node.cross_document_research (some true) = Node.handle_failure ∷ []
described Node.validate_evidence (some false) = Node.generate_response ∷ []
described Node.validate_evidence (some true) = Node.handle_failure ∷ []
described Node.direct_response (some false) = Node.prepare_output ∷ []
described Node.deny_request (some false) = Node.prepare_output ∷ []
described Node.unsupported (some false) = Node.prepare_output ∷ []
described Node.python_analysis (some false) = Node.generate_response ∷ []
described Node.python_analysis (some true) = Node.handle_failure ∷ []
described Node.execute_mcp_tool (some false) = Node.prepare_output ∷ []
described Node.execute_mcp_tool (some true) = Node.handle_failure ∷ []
described Node.generate_response (some false) = Node.validate_citations ∷ []
described Node.generate_response (some true) = Node.handle_failure ∷ []
described Node.validate_citations (some false) = Node.prepare_output ∷ []
described Node.validate_citations (some true) = Node.handle_failure ∷ []
described Node.prepare_output (some false) = Node.update_memory ∷ []
described Node.prepare_output (some true) = Node.handle_failure ∷ []
described Node.update_memory (some false) = Node.finalize_execution ∷ []
described Node.update_memory (some true) = Node.handle_failure ∷ []
described n (some b) = []

-- How a run ends: at the end, in a `KeyError`, or at the limit on the steps.
pub data Stop : Type 0 where
  finished missing_route step_limit : Stop

module _ {S : Type 0} (perform : Node → S → S) (marks : S → Marks) where
  -- The graph's run from a node: the nodes it performs, in order, and how it ends.
  unfoldable pub run : ℕ → Target → S → List Node × Stop
  run zero target s = ([], Stop.step_limit)
  run (suc fuel) end s = ([], Stop.finished)
  run (suc fuel) no_route s = ([], Stop.missing_route)
  run (suc fuel) (to n) s =
      let after = perform n s in
      let (nodes, stop) = run fuel (next_node n (marks after)) after in (n ∷ nodes, stop)

  -- The state that the run leaves.
  unfoldable pub run_state : ℕ → Target → S → S
  run_state zero target s = s
  run_state (suc fuel) end s = s
  run_state (suc fuel) no_route s = s
  run_state (suc fuel) (to n) s =
      let after = perform n s in run_state fuel (next_node n (marks after)) after

-- ===== src/Graph/Runtime/Placed.antt =====
-- What holds of the route and the status where a run stands, and how the nodes carry it on.
use enterprise_ai_knowledge.Graph.Nodes.Request.{supervisor}
use enterprise_ai_knowledge.Common.{
  ◌≢◌, ◌≡◌, ◌||◌, true, some, not, none, leb, is_empty, false, arith, Option, Bool, ◌&&◌,
}
use enterprise_ai_knowledge.Graph.Topology.{
  Marks, to, route_node, Node, selected_route, after_operation, Target, next_node,
}
use enterprise_ai_knowledge.Graph.State.{GraphState, merge, Update}
use enterprise_ai_knowledge.Graph.Nodes.{failed_update, completed_update, guarded, node}
use enterprise_ai_knowledge.Vocabulary.{Route}
use enterprise_ai_knowledge.Graph.Services.{Body, Services}
use enterprise_ai_knowledge.Graph.Nodes.Tame.{is_failed_mark, every, is_none}
use enterprise_ai_knowledge.Graph.Nodes.Carried.{is_ordinary}
use enterprise_ai_knowledge.Graph.Topology.Runs.{behind}
use enterprise_ai_knowledge.Graph.Execution.{marks_of}

abbrev pub has_route : Option Route → Bool
has_route none = false
has_route (some route) = true

abbrev pub is_failure_route : Option Route → Bool
is_failure_route none = false
is_failure_route (some Route.failure) = true
is_failure_route (some route) = false

-- Behind the supervisor there is a route, and only the failure's route ends with a failed status.
abbrev pub placed : Target → GraphState → Bool
placed (to Node.initialize_request) s = is_empty s.activity_events
placed (to Node.handle_failure) s = not (is_failed_mark s.processing_status)
placed (to Node.finalize_execution) s =
    has_route s.selected_route
    && (not (is_failed_mark s.processing_status) || is_failure_route s.selected_route)
placed (to n) s =
    not (is_failed_mark s.processing_status) && (leb 8 (behind n) || has_route s.selected_route)
placed Target.end s = true
placed Target.no_route s = false

-- An update with a route, or with a failure.
abbrev pub routes : Update → Bool
routes u =
    not (is_none u.selected_route) || elim u.failure [ none ↦ false | some failure ↦ failure ]

supervisor-routes : (v : Services) (s : GraphState) → every routes (supervisor v s).1 ≡ true
unfolding supervisor
supervisor-routes v s = ground arith

guarded-routes :
    (v : Services) (n : Node) (s : GraphState) (body : Body)
    → every routes body.1 ≡ true
    → every routes (guarded v n s body).1 ≡ true
unfolding guarded completed_update failed_update
guarded-routes v n s (contents, none) h = ground arith
guarded-routes v n s (contents, some u) h = ground arith

pub node-routes : (v : Services) (s : GraphState) → every routes (node v Node.supervisor s).1 ≡ true
unfolding node
node-routes v s = guarded-routes v Node.supervisor s (supervisor v s) (supervisor-routes v s)

pub merge-has_route :
    (s : GraphState) (u : Update)
    → has_route s.selected_route ≡ true
    → has_route (merge s u).selected_route ≡ true
unfolding merge
merge-has_route s u h = ground arith

pub merge-routes :
    (s : GraphState) (u : Update)
    → routes u ≡ true
    → (has_route (merge s u).selected_route || (merge s u).failure) ≡ true
unfolding merge
merge-routes s u h = ground arith

pub next_node-placed :
    (n : Node) (s t : GraphState)
    → is_ordinary n ≡ true
    → placed (to n) s ≡ true
    → is_failed_mark t.processing_status ≡ false
    → (has_route s.selected_route ≡ true → has_route t.selected_route ≡ true)
    → (n ≡ Node.supervisor → (has_route t.selected_route || t.failure) ≡ true)
    → placed (next_node n (marks_of t)) t ≡ true
unfolding next_node after_operation selected_route route_node
next_node-placed n s t ordinary here calm keeps found = ground arith

pub placed-calm :
    (n : Node) (s : GraphState)
    → is_ordinary n ≡ true
    → placed (to n) s ≡ true
    → is_failed_mark s.processing_status ≡ false
placed-calm n s ordinary here = ground arith

pub next_node-goes_on :
    (n : Node) (m : Marks) → n ≢ Node.finalize_execution → next_node n m ≢ Target.end
unfolding next_node after_operation selected_route
next_node-goes_on n m other = ground arith

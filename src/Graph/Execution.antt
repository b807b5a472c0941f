-- ===== src/Graph/Execution.antt =====
-- The run of the compiled graph (graph/builder.py over graph/nodes.py): the state behind each node, and
-- the parts that the stream modes `custom` and `values` give, which are the events as a node writes
-- them and the state behind each step. That is what LangGraph documents of the two modes.
use enterprise_ai_knowledge.Common.{◌∷◌, ℕ, true, some, none, map, false, [], List, Bool, ◌++◌}
use enterprise_ai_knowledge.Graph.Services.{Services}
use enterprise_ai_knowledge.Graph.State.{merge, GraphState}
use enterprise_ai_knowledge.Graph.Nodes.{node, Performed}
use enterprise_ai_knowledge.Graph.Topology.{to, run_state, Node, Marks}
use enterprise_ai_knowledge.Graph.Reducers.{ActivityEvent}

pub data Part : Type 0 where
  custom : ActivityEvent → Part
  values : GraphState → Part

-- `raised` says that a node raised, which ends the run.
pub record Execution : Type 0 where
  pub state : GraphState
  pub parts : List Part
  pub raised : Bool

unfoldable pub settle : Execution → Performed → Execution
settle x (events, none) = record x { parts = x.parts ++ map custom events; raised = true }
settle x (events, some u) =
    let after = merge x.state u in
    record x { state = after; parts = x.parts ++ (map custom events ++ values after ∷ []) }

abbrev pub marks_of : GraphState → Marks
marks_of s = record { failure = s.failure; selected_route = s.selected_route }

abbrev pub execution_marks : Execution → Marks
execution_marks x = marks_of x.state

abbrev pub perform : Services → Node → Execution → Execution
perform services n x = settle x (node services n x.state)

-- The nodes of a run are fewer than this.
abbrev pub enough : ℕ
enough = 15

-- The graph's run on a state: `ainvoke`, and the parts that `astream` gives.
unfoldable pub execute : Services → GraphState → Execution
execute services s =
    run_state (perform services) execution_marks enough (to Node.initialize_request)
      (record { state = s; parts = values s ∷ []; raised = false })

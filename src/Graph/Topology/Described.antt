-- ===== src/Graph/Topology/Described.antt =====
-- The printed topology against the edges that are built.
-- The nodes whose failure edge the printed topology leaves out.
use enterprise_ai_knowledge.Common.{◌∷◌, arith, [], ◌⊎◌, ◌≢◌, ◌≡◌, true, some, none, false, Bool}
use enterprise_ai_knowledge.Graph.Topology.{
  node_eq, to, Marks, after_operation, next_node, described, Node,
}

abbrev pub answers_alone : Node → Bool
answers_alone Node.direct_response = true
answers_alone Node.deny_request = true
answers_alone Node.unsupported = true
answers_alone n = false

-- An edge that the topology lists, under the condition that the state shows, is the one that is
-- taken.
pub described-next_node :
    (n k : Node) (m : Marks)
    → (described n none ≡ k ∷ []) ⊎ (described n (some m.failure) ≡ k ∷ [])
    → next_node n m ≡ to k
unfolding described next_node after_operation
described-next_node n k m h = ground arith

-- An edge that is taken is listed, but for the supervisor's, and for the edge to the failure's node
-- from the three nodes that answer without evidence.
pub next_node-described :
    (n k : Node) (m : Marks)
    → n ≢ Node.supervisor
    → next_node n m ≡ to k
    → ((described n none ≡ k ∷ []) ⊎ (described n (some m.failure) ≡ k ∷ []))
      ⊎ ((m.failure ≡ true) × (answers_alone n ≡ true) × (k ≡ Node.handle_failure))
unfolding described next_node after_operation
next_node-described n k m other h = ground arith

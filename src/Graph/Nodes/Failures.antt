-- ===== src/Graph/Nodes/Failures.antt =====
-- The guard on errors.
use mathlib.Core.Option
use enterprise_ai_knowledge.Graph.Topology.{selected_route, after_operation, to}
use enterprise_ai_knowledge.Common.{
  ◌⊎◌, is_empty, false, if◌then◌else◌, ◌+◌, arith, refl, inr, inl, Bool-cases, none, ◌≡◌, ◌∷◌, ◌||◌,
  true, some, [],
}
use enterprise_ai_knowledge.Graph.Nodes.{
  completed_update, journal_events, Performed, over_budget, failed_update, guarded,
}
use enterprise_ai_knowledge.Graph.State.{GraphError, Update, GraphState, merge}
use enterprise_ai_knowledge.Graph.Services.{Body, Services}
use enterprise_ai_knowledge.Graph.Topology.{Marks, next_node, Node}
use enterprise_ai_knowledge.Graph.Nodes.Carried.{is_ordinary}
use enterprise_ai_knowledge.Graph.Nodes.Tame.{is_none}
use enterprise_ai_knowledge.Graph.Execution.{marks_of}

failed_next :
    (n : Node) (m : Marks)
    → is_ordinary n ≡ true
    → m.failure ≡ true
    → next_node n m ≡ to Node.handle_failure
unfolding next_node after_operation selected_route
failed_next n m ordinary h = ground arith

-- What the guard makes of a node that fails: one error of the node, and the way to `handle_failure`.
abbrev pub FailsSafely : Node → GraphState → Performed → Type 0
FailsSafely n s p =
    (u : Update) × (e : GraphError) × ((p.1 ≡ some u)
      × (u.errors ≡ some (e ∷ []))
      × (e.node ≡ n)
      × (next_node n (marks_of (merge s u)) ≡ to Node.handle_failure))

-- What the guard makes of a node whose body gives an update: that update, but for the count of steps
-- and the events, which are the body's, numbered by the journal.
abbrev pub Passes : GraphState → Body → Performed → Type 0
Passes s body p =
    (given : Update) × (u : Update) × ((body.1 ≡ some given)
      × (p ≡ (journal_events s body.0, some u))
      × (u ≡ record given {
        activity_events =
            (if is_empty (journal_events s body.0)
              then given.activity_events
              else some (journal_events s body.0));
        execution_step_count = u.execution_step_count;
      })
      × (u.execution_step_count
          ≡ some (Option.get_or given.execution_step_count (s.execution_step_count + 1))))

-- A guarded node never raises. Where the budget of steps is spent before, or its body raises, its
-- update is a failure with one error of this node, and the next node is `handle_failure`; else it has
-- the update of its body, but for the events, which are the body's, numbered, and the count of steps.
pub guarded-failure :
    (v : Services) (n : Node) (s : GraphState) (body : Body)
    → is_ordinary n ≡ true
    → (((over_budget v s || is_none body.1) ≡ true) × FailsSafely n s (guarded v n s body))
      ⊎ (((over_budget v s || is_none body.1) ≡ false) × Passes s body (guarded v n s body))
unfolding guarded failed_update merge completed_update
guarded-failure v n s (contents, none) ordinary = elim (Bool-cases (over_budget v s)) [
  | inl e ↦ rw (e, guarded) (inl (refl, (_, _, (refl, refl, refl, failed_next n _ ordinary refl))))
  | inr e ↦ rw (e, guarded) (inl (refl, (_, _, (refl, refl, refl, failed_next n _ ordinary refl))))
]
guarded-failure v n s (contents, some u) ordinary = elim (Bool-cases (over_budget v s)) [
  | inl e ↦ rw (e, guarded) (inl (refl, (_, _, (refl, refl, refl, failed_next n _ ordinary refl))))
  | inr e ↦ rw (e, guarded) (inr (refl, (u, _, (refl, refl, refl, refl))))
]

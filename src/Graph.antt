-- ===== src/Graph.antt =====
-- backend/src/enterprise_ai/graph: the topology, the routing rules, the activity events, the state, the
-- nodes, the run and the runtime.
pub mod Topology
pub mod Routing
pub mod Denied
pub mod Reducers
pub mod Numbered
pub mod History
pub mod Journal
mod Tests
pub mod State
pub mod Services
pub mod Nodes
pub mod Execution
pub mod Runtime

-- ===== src/Graph/Services.antt =====
-- What the nodes of backend/src/enterprise_ai/graph/nodes.py call: the settings that they read, the
-- text functions, and the services with each way that a call can end. A service's answer is a
-- function of the arguments: a run calls each of them at most once for one node.
use enterprise_ai_knowledge.Common.{◌∷◌, ℕ, some, none, [], Text, String, Option, List, Bool}
use enterprise_ai_knowledge.Research.Aggregation.{HybridEvidence}
use enterprise_ai_knowledge.Memory.Models.{MemoryContext}
use enterprise_ai_knowledge.Graph.State.{
  GraphState, ResearchResult, GroundedResponse, AnalysisResult, Update, McpExecution,
}
use enterprise_ai_knowledge.Graph.Topology.{Node}
use enterprise_ai_knowledge.Graph.Routing.{TextRules}
use enterprise_ai_knowledge.Graph.Reducers.{EventStatus, Content}
use enterprise_ai_knowledge.Identity.{Principal}
use enterprise_ai_knowledge.Vocabulary.{ProcessingStatus, Route}

pub data Loaded : Type 0 where
  -- `MemoryError`, and any other exception
  unavailable crashed : Loaded
  -- whether memory is enabled, and the context and the number of references of a snapshot
  loaded : Bool → Option MemoryContext → Loaded

pub data Retrieval : Type 0 where
  -- `RetrievalError` or `TimeoutError`, and any other exception
  unavailable crashed : Retrieval
  -- the evidence, the warnings, and whether the status is `partial_success`
  retrieved : List HybridEvidence → List String → Bool → Retrieval

pub data ToolCall : Type 0 where
  -- `MCPAuthorizationError`, `MCPEnterpriseError`, and any other exception
  denied failed crashed : ToolCall
  executed : McpExecution → ToolCall

pub data Stored : Type 0 where
  -- `MemoryError`, and any other exception
  unavailable crashed : Stored
  -- stored, duplicate, the sequence number
  written : Bool → Bool → Option ℕ → Stored

-- `none` stands for an exception.
pub record Services : Type 0 where
  pub rules : TextRules
  pub strip : Text → Text
  -- `" ".join(text.split())`
  pub join_words : Text → Text
  pub max_steps : ℕ
  pub max_evidence_items : ℕ
  pub max_warnings : ℕ
  pub research_enabled : Bool
  pub followup_enabled : Bool
  pub load_memory : ℕ → Principal → Loaded
  pub resolve_followup : Text → MemoryContext → Text × Bool
  pub retrieve : Principal → Text → ℕ → Retrieval
  -- the manifest's fingerprint
  pub expected_fingerprint : Option ℕ
  pub exact_document_ids : List Text → Option (List ℕ)
  -- `contains_untrusted_instruction`
  pub is_untrusted : ℕ → Bool
  pub may_analyse : Principal → Bool
  pub analyse : Principal → Text → Option AnalysisResult
  -- `none` is `MCPInputError`
  pub select_tool : Text → Option ℕ
  pub execute_tool : Principal → ℕ → ToolCall
  pub analysis_response : Text → AnalysisResult → Option GroundedResponse
  -- the response, the validation's verdict, the calls of the model
  pub research_response :
      Text
      → List HybridEvidence
      → Principal
      → ResearchResult
      → Option (GroundedResponse × Option Bool × ℕ)
  pub retrieval_response :
      Text → List HybridEvidence → Principal → Option (GroundedResponse × Option Bool)
  pub research : Text → Principal → Option ResearchResult
  pub update_memory : GraphState → String → Route → ProcessingStatus → Stored

-- `MemoryContext()`
abbrev pub empty_context : MemoryContext
empty_context = record {
  last_user_question = none;
  last_intent = none;
  last_route = none;
  recent_document_titles = [];
  recent_document_ids = [];
  recent_incident_ids = [];
  recent_service_names = [];
  recent_departments = [];
  recent_document_types = [];
  recent_evidence_ids = [];
  recent_warnings = [];
  turn_count = 0;
}

-- The run of a node's body: the calls of `event` in order, and the dictionary that it returns, or
-- none where it raises.
abbrev pub Body : Type 0
Body = List Content × Option Update

abbrev pub content : Node → String → EventStatus → Content
content n event_type status = record { event_type = event_type; node = some n; status = status }

-- `_node_events`
abbrev pub node_events : Node → List Content
node_events n =
    content n "node.started" EventStatus.started
    ∷ content n "node.completed" EventStatus.completed
    ∷ []

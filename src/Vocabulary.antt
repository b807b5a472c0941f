-- ===== src/Vocabulary.antt =====
-- The enumerations that several components share: models/graph.py, models/common.py and
-- models/retrieval.py of backend/src/enterprise_ai.
use enterprise_ai_knowledge.Common.{ℕ, ◌≡◌, Eq, eq_by_code, arith}

pub data Intent : Type 0 where
  security_denial conversational knowledge_lookup cross_document_research : Intent
  structured_analysis enterprise_tool_lookup administrative unsupported : Intent

abbrev pub intent_code : Intent → ℕ
intent_code Intent.security_denial = 0
intent_code Intent.conversational = 1
intent_code Intent.knowledge_lookup = 2
intent_code Intent.cross_document_research = 3
intent_code Intent.structured_analysis = 4
intent_code Intent.enterprise_tool_lookup = 5
intent_code Intent.administrative = 6
intent_code Intent.unsupported = 7

pub intent_code_injective : (a b : Intent) → intent_code a ≡ intent_code b → a ≡ b
intent_code_injective a b h = ground arith

instance abbrev pub intent_eq : Eq Intent
intent_eq = eq_by_code intent_code intent_code_injective

pub data Route : Type 0 where
  direct_response simple_retrieval recursive_research python_analysis mcp_tool : Route
  human_approval deny unsupported failure : Route

abbrev pub route_code : Route → ℕ
route_code Route.direct_response = 0
route_code Route.simple_retrieval = 1
route_code Route.recursive_research = 2
route_code Route.python_analysis = 3
route_code Route.mcp_tool = 4
route_code Route.human_approval = 5
route_code Route.deny = 6
route_code Route.unsupported = 7
route_code Route.failure = 8

pub route_code_injective : (a b : Route) → route_code a ≡ route_code b → a ≡ b
route_code_injective a b h = ground arith

instance abbrev pub route_eq : Eq Route
route_eq = eq_by_code route_code route_code_injective

pub data ProcessingStatus : Type 0 where
  accepted running waiting_for_approval partial_success completed denied : ProcessingStatus
  failed : ProcessingStatus

abbrev pub status_code : ProcessingStatus → ℕ
status_code ProcessingStatus.accepted = 0
status_code ProcessingStatus.running = 1
status_code ProcessingStatus.waiting_for_approval = 2
status_code ProcessingStatus.partial_success = 3
status_code ProcessingStatus.completed = 4
status_code ProcessingStatus.denied = 5
status_code ProcessingStatus.failed = 6

pub status_code_injective : (a b : ProcessingStatus) → status_code a ≡ status_code b → a ≡ b
status_code_injective a b h = ground arith

instance abbrev pub status_eq : Eq ProcessingStatus
status_eq = eq_by_code status_code status_code_injective

pub data DocumentType : Type 0 where
  policy architecture runbook incident product_specification meeting_note : DocumentType

abbrev pub document_type_code : DocumentType → ℕ
document_type_code DocumentType.policy = 0
document_type_code DocumentType.architecture = 1
document_type_code DocumentType.runbook = 2
document_type_code DocumentType.incident = 3
document_type_code DocumentType.product_specification = 4
document_type_code DocumentType.meeting_note = 5

pub document_type_code_injective :
    (a b : DocumentType) → document_type_code a ≡ document_type_code b → a ≡ b
document_type_code_injective a b h = ground arith

instance abbrev pub document_type_eq : Eq DocumentType
document_type_eq = eq_by_code document_type_code document_type_code_injective

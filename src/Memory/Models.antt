-- ===== src/Memory/Models.antt =====
-- backend/src/enterprise_ai/memory/models.py and policies.py. Identifiers (UUID) are numbers, and
-- times are numbers of ticks.
use enterprise_ai_knowledge.Common.{
  Eq, string_eq, list_eq, nat_eq, ◌≡◌, ◌↔◌, ℕ, true, list_beq_iff, eq_iff, arith, String, Option,
  List, Bool, ◌==◌, ◌&&◌,
}
use enterprise_ai_knowledge.Identity.{
  level_eq, role_eq, permission_eq, ToolPermission, AccessLevel, UserRole,
}
use enterprise_ai_knowledge.Vocabulary.{
  status_eq, route_eq, document_type_eq, intent_eq, ProcessingStatus, Route, Intent, DocumentType,
}

pub record SessionOwnership : Type 0 where
  pub session_id : ℕ
  pub user_id : ℕ
  pub role : UserRole
  pub permissions : List ToolPermission
  pub policy_fingerprint : String

pub record MemoryEvidenceReference : Type 0 where
  pub evidence_id : ℕ
  pub chunk_id : ℕ
  pub document_id : ℕ
  pub title : String
  pub source_file : String
  pub section_path : List String
  pub document_type : DocumentType
  pub department : String
  pub access_level : AccessLevel
  pub version : String
  pub updated_date : ℕ
  pub final_rank : ℕ

pub record MemoryUpdate : Type 0 where
  pub request_id : ℕ
  pub session_id : ℕ
  pub user_id : ℕ
  pub user_message : String
  pub assistant_message : String
  pub intent : Intent
  pub selected_route : Route
  pub completion_status : ProcessingStatus
  pub evidence_references : List MemoryEvidenceReference
  pub warnings : List String
  pub created_at : ℕ

-- A turn is an update with an identifier and a sequence number: `ConversationTurn` repeats the
-- fields of `MemoryUpdate`, and `_turn` copies them all.
pub record ConversationTurn : Type 0 where
  pub turn_id : ℕ
  pub sequence_number : ℕ
  pub update : MemoryUpdate

pub record MemoryContext : Type 0 where
  pub last_user_question : Option String
  pub last_intent : Option Intent
  pub last_route : Option Route
  pub recent_document_titles : List String
  pub recent_document_ids : List ℕ
  pub recent_incident_ids : List String
  pub recent_service_names : List String
  pub recent_departments : List String
  pub recent_document_types : List DocumentType
  pub recent_evidence_ids : List ℕ
  pub recent_warnings : List String
  pub turn_count : ℕ

pub record ConversationMemorySnapshot : Type 0 where
  pub session_id : ℕ
  pub turn_count : ℕ
  pub total_characters : ℕ
  pub evidence_reference_count : ℕ
  pub turns : List ConversationTurn
  pub context : MemoryContext
  pub expires_at : ℕ

pub record MemoryLoadResult : Type 0 where
  pub enabled : Bool
  pub found : Bool
  pub snapshot : Option ConversationMemorySnapshot

pub record MemoryEvictionReport : Type 0 where
  pub evicted_turns : ℕ
  pub evicted_sessions : ℕ

pub record MemoryWriteResult : Type 0 where
  pub stored : Bool
  pub duplicate : Bool
  pub sequence_number : Option ℕ
  pub eviction : MemoryEvictionReport

pub record MemoryStoreStatistics : Type 0 where
  pub active_sessions : ℕ
  pub total_turns : ℕ
  pub expired_sessions_removed : ℕ

pub record ConversationMemoryInspection : Type 0 where
  pub session_id : ℕ
  pub owner_id : ℕ
  pub turn_count : ℕ
  pub sequence_numbers : List ℕ
  pub character_count : ℕ
  pub evidence_reference_count : ℕ
  pub expired : Bool

-- Equality of models is field by field.
unfoldable pub same_ownership : SessionOwnership → SessionOwnership → Bool
same_ownership a b =
    a.session_id == b.session_id
    && a.user_id == b.user_id
    && a.role == b.role
    && a.permissions == b.permissions
    && a.policy_fingerprint == b.policy_fingerprint

pub same_ownership_iff : (a b : SessionOwnership) → (same_ownership a b ≡ true) ↔ (a ≡ b)
unfolding same_ownership
same_ownership_iff a b = (
  (λ h. grind (
    arith,
    list_beq_iff a.permissions b.permissions,
    eq_iff a.policy_fingerprint b.policy_fingerprint,
  )),
  (λ h. grind (
    arith,
    list_beq_iff a.permissions b.permissions,
    eq_iff a.policy_fingerprint b.policy_fingerprint,
  )),
)

unfoldable pub same_reference : MemoryEvidenceReference → MemoryEvidenceReference → Bool
same_reference a b =
    a.evidence_id == b.evidence_id
    && a.chunk_id == b.chunk_id
    && a.document_id == b.document_id
    && a.title == b.title
    && a.source_file == b.source_file
    && a.section_path == b.section_path
    && a.document_type == b.document_type
    && a.department == b.department
    && a.access_level == b.access_level
    && a.version == b.version
    && a.updated_date == b.updated_date
    && a.final_rank == b.final_rank

pub same_reference_iff : (a b : MemoryEvidenceReference) → (same_reference a b ≡ true) ↔ (a ≡ b)
unfolding same_reference
same_reference_iff a b = (
  (λ h. ground (
    arith,
    list_beq_iff a.section_path b.section_path,
    eq_iff a.title b.title,
    eq_iff a.source_file b.source_file,
    eq_iff a.department b.department,
    eq_iff a.version b.version,
  )),
  (λ h. ground (
    arith,
    list_beq_iff a.section_path b.section_path,
    eq_iff a.title b.title,
    eq_iff a.source_file b.source_file,
    eq_iff a.department b.department,
    eq_iff a.version b.version,
  )),
)

instance abbrev pub reference_eq : Eq MemoryEvidenceReference
reference_eq = record { same = same_reference; same_iff = same_reference_iff }

unfoldable pub same_update : MemoryUpdate → MemoryUpdate → Bool
same_update a b =
    a.request_id == b.request_id
    && a.session_id == b.session_id
    && a.user_id == b.user_id
    && a.user_message == b.user_message
    && a.assistant_message == b.assistant_message
    && a.intent == b.intent
    && a.selected_route == b.selected_route
    && a.completion_status == b.completion_status
    && a.evidence_references == b.evidence_references
    && a.warnings == b.warnings
    && a.created_at == b.created_at

unfoldable pub same_turn : ConversationTurn → ConversationTurn → Bool
unfolding same_update
same_turn a b =
    a.turn_id == b.turn_id
    && a.sequence_number == b.sequence_number
    && same_update a.update b.update

pub same_update_refl : (a : MemoryUpdate) → same_update a a ≡ true
unfolding same_update
same_update_refl a = ground (
  arith,
  list_beq_iff a.evidence_references a.evidence_references,
  list_beq_iff a.warnings a.warnings,
  eq_iff a.user_message a.user_message,
  eq_iff a.assistant_message a.assistant_message,
)

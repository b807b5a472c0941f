-- ===== src/Memory/Service.antt =====
-- backend/src/enterprise_ai/memory/service.py: `ConversationMemoryService` over the in-memory
-- store, and `ownership_for` and the ordering of permissions of memory/policies.py.
pub mod References
use enterprise_ai_knowledge.Common.{
  string_eq, nat_eq, ◌∷◌, ℕ, ◌||◌, true, take, some, not, none, map, keep_if, join, false,
  if◌then◌else◌, contains, [], String, Option, List, Bool, ◌==◌,
}
use enterprise_ai_knowledge.Identity.{
  level_eq, role_eq, permission_eq, UserRole, Principal, ToolPermission,
}
use enterprise_ai_knowledge.Memory.Catalog.{err, ok, Reply, Catalog, Environment, MemorySettings}
use enterprise_ai_knowledge.Memory.Models.{
  MemoryWriteResult, MemoryUpdate, ConversationMemoryInspection, MemoryLoadResult, SessionOwnership,
  MemoryEvidenceReference,
}
use enterprise_ai_knowledge.Security.Authorization.{allowed_access_levels}
use enterprise_ai_knowledge.Vocabulary.{status_eq, ProcessingStatus, Route, Intent}
use enterprise_ai_knowledge.Memory.Store.{upsert_turn, load, inspect}
use enterprise_ai_knowledge.Memory.Context.{unique_from}

-- The settings of the service beside those of the store.
pub record ServiceSettings : Type 0 where
  pub memory_enabled : Bool
  pub redact : Bool
  pub max_user_characters : ℕ
  pub max_assistant_characters : ℕ
  pub max_evidence_references : ℕ
  pub max_warnings : ℕ

-- What the service takes from elsewhere: SHA-256 in hexadecimal, the regular expressions of
-- `sanitize_text`, and the slice `text[:n]`.
pub record ServiceTools : Type 0 where
  pub fingerprint : String → String
  pub redacted : String → String
  pub prefix : ℕ → String → String

-- `UserRole.value` and `ToolPermission.value`
abbrev pub role_value : UserRole → String
role_value UserRole.viewer = "viewer"
role_value UserRole.analyst = "analyst"
role_value UserRole.administrator = "administrator"

abbrev pub permission_value : ToolPermission → String
permission_value ToolPermission.knowledge_search = "knowledge_search"
permission_value ToolPermission.python_analysis = "python_analysis"
permission_value ToolPermission.mcp_tools = "mcp_tools"
permission_value ToolPermission.administrative_tools = "administrative_tools"
permission_value ToolPermission.ingestion_management = "ingestion_management"
permission_value ToolPermission.human_approval = "human_approval"

-- The permissions by their values' order, in which `sorted` lists them.
abbrev by_value : List ToolPermission
by_value =
    ToolPermission.administrative_tools ∷ ToolPermission.human_approval
    ∷ ToolPermission.ingestion_management ∷ ToolPermission.knowledge_search
    ∷ ToolPermission.mcp_tools ∷ ToolPermission.python_analysis ∷ []

-- A retrieved item, as the service reads it: `HybridEvidence` with its `DenseEvidence`.
pub record MemoryEvidence : Type 0 where
  pub reference : MemoryEvidenceReference
  pub allowed_roles : List UserRole

-- `sanitize_text`
unfoldable pub sanitize_text : ServiceTools → Bool → String → String
sanitize_text tools enabled value = if enabled then tools.redacted value else value

module _ (settings : ServiceSettings) (tools : ServiceTools) where
  unfoldable pub ownership_for : ℕ → Principal → SessionOwnership
  ownership_for session_id principal = record {
    session_id = session_id;
    user_id = principal.identity.user_id;
    role = principal.identity.role;
    permissions = principal.permissions;
    policy_fingerprint = tools.fingerprint (
        join "|" (
          role_value principal.identity.role
          ∷ map permission_value (keep_if (contains principal.permissions) by_value)));
  }

  -- The loop of `evidence_references`, on the chunks seen so far.
  unfoldable pub references_from :
      Principal → List ℕ → List MemoryEvidence → List MemoryEvidenceReference
  references_from principal seen [] = []
  references_from principal seen (item ∷ rest) =
      let skipped =
        contains seen item.reference.chunk_id
        || not (contains item.allowed_roles principal.identity.role)
        || not (contains (allowed_access_levels principal) item.reference.access_level) in
      let without = references_from principal seen rest in
      let with' = references_from principal (item.reference.chunk_id ∷ seen) rest in
      if skipped then without else item.reference ∷ with'

  unfoldable pub evidence_references :
      List MemoryEvidence → Principal → List MemoryEvidenceReference
  evidence_references evidence principal =
      take settings.max_evidence_references (references_from principal [] evidence)

  module _ (store : MemorySettings) (env : Environment) where
    unfoldable pub load_memory : ℕ → Principal → ℕ → Catalog → Reply MemoryLoadResult × Catalog
    load_memory session_id principal now c =
        let (found, c') = load store env (ownership_for session_id principal) now c in
        if not settings.memory_enabled
        then (ok (record { enabled = false; found = false; snapshot = none }), c)
        else (
          elim found [
            | err e ↦ err e
            | ok none ↦ ok (record { enabled = true; found = false; snapshot = none })
            | ok (some s) ↦ ok (record { enabled = true; found = true; snapshot = some s })
          ],
          c',
        )

    -- The update that `update` hands to the store.
    unfoldable pub prepared :
        (request_id session_id : ℕ)
        → Principal
        → (user_message assistant_message : String) → Intent
        → Route
        → ProcessingStatus
        → List MemoryEvidence
        → List String
        → ℕ
        → MemoryUpdate
    prepared request_id session_id principal user_message assistant_message intent route status
          evidence warnings created_at =
        record {
          request_id = request_id;
          session_id = session_id;
          user_id = principal.identity.user_id;
          user_message =
              tools.prefix settings.max_user_characters
                (sanitize_text tools settings.redact user_message);
          assistant_message =
              tools.prefix settings.max_assistant_characters
                (sanitize_text tools settings.redact assistant_message);
          intent = intent;
          selected_route = route;
          completion_status = status;
          evidence_references =
              if status == ProcessingStatus.denied
              then []
              else evidence_references evidence principal;
          warnings = take settings.max_warnings (unique_from [] warnings);
          created_at = created_at;
        }

    unfoldable pub update_memory :
        (request_id session_id : ℕ)
        → Principal
        → (user_message assistant_message : String) → Intent
        → Route
        → ProcessingStatus
        → List MemoryEvidence
        → List String
        → (created_at now : ℕ) → Catalog
        → Reply MemoryWriteResult × Catalog
    update_memory request_id session_id principal user_message assistant_message intent route status
          evidence warnings created_at now c =
        if not settings.memory_enabled || status == ProcessingStatus.failed
        then (
          ok (record {
            stored = false;
            duplicate = false;
            sequence_number = none;
            eviction = record { evicted_turns = 0; evicted_sessions = 0 };
          }),
          c,
        )
        else upsert_turn store env (ownership_for session_id principal)
            (prepared request_id session_id principal user_message assistant_message intent route
              status evidence warnings created_at)
            now c

    unfoldable pub inspect_memory :
        ℕ → Principal → ℕ → Catalog → Reply (Option ConversationMemoryInspection) × Catalog
    inspect_memory session_id principal now c =
        inspect store env (ownership_for session_id principal) now c

-- ===== src/Memory/Tests.antt =====
-- Runs of the memory store and instances of its theorems.
use enterprise_ai_knowledge.Common.{
  nat_eq, map, ◌≤◌, ◌≡◌, ◌∷◌, ℕ, true, some, refl, lookup, length, false, arith, [], String, List,
  All, ◌<◌, ◌+◌, ◌*◌,
}
use enterprise_ai_knowledge.Memory.Service.{
  MemoryEvidence, ServiceSettings, evidence_references, ServiceTools,
}
use enterprise_ai_knowledge.Memory.Models.{
  same_ownership, MemoryUpdate, ConversationTurn, MemoryWriteResult, SessionOwnership,
}
use enterprise_ai_knowledge.Identity.{ToolPermission, UserRole, AccessLevel, Principal}
use enterprise_ai_knowledge.Memory.Catalog.Evict.{evict_turns-LongestFit, LongestFit}
use enterprise_ai_knowledge.Memory.Store.{
  make_capacity, find_turn, owns, append_turn, delete, write_turn, snapshot, make_turn,
  open_session, upsert_turn, load,
}
use enterprise_ai_knowledge.Memory.Context.{TextTools}
use enterprise_ai_knowledge.Memory.Store.Runs.{load_session, upsert, step, Operation, run}
use enterprise_ai_knowledge.Memory.Store.Bounds.{run-IsValid, IsValid}
use enterprise_ai_knowledge.Memory.Catalog.{
  ok, reference_count, total_characters, turn_characters, is_valid_turn, oldest_from, remove_all,
  expired_keys, not_owner, err, evict_turns, MemorySettings, Catalog, Session, Environment,
}
use enterprise_ai_knowledge.Memory.Service.References.{
  evidence_references-Sourced, DistinctChunks, Sourced,
}
use enterprise_ai_knowledge.Memory.Store.Owner.{stranger_refused, load-owner}
use enterprise_ai_knowledge.Vocabulary.{ProcessingStatus, Route, DocumentType, Intent}
use enterprise_ai_knowledge.Memory.Store.Retry.{upsert_twice, repeated}

abbrev tools : TextTools
tools = record {
  incidents = λ s. [];
  is_followup = λ s. false;
  has_identifiers = λ s. false;
  is_untrusted = λ s. false;
  casefold = λ s. s;
  occurs_in = λ a b. false;
  prefix = λ n s. s;
}

abbrev env : Environment
env = record { turn_identifier = λ s r. 1000 * s + r; tools = tools }

abbrev limits : MemorySettings
limits = record {
  max_sessions = 2;
  max_turns = 2;
  max_total_characters = 20;
  max_evidence_references = 3;
  session_ttl = 100;
  max_context_topics = 5;
  max_context_identifiers = 5;
}

abbrev owner_of : ℕ → ℕ → SessionOwnership
owner_of session user = record {
  session_id = session;
  user_id = user;
  role = UserRole.viewer;
  permissions = ToolPermission.knowledge_search ∷ [];
  policy_fingerprint = "viewer";
}

abbrev says : ℕ → ℕ → ℕ → String → MemoryUpdate
says request session user text = record {
  request_id = request;
  session_id = session;
  user_id = user;
  user_message = text;
  assistant_message = "ok";
  intent = Intent.conversational;
  selected_route = Route.direct_response;
  completion_status = ProcessingStatus.completed;
  evidence_references = [];
  warnings = [];
  created_at = 0;
}

abbrev nothing : Catalog
nothing = record { sessions = []; expired_removed = 0 }

abbrev script : List Operation
script =
    upsert (owner_of 1 7) (says 1 1 7 "hello") 10
    ∷ upsert (owner_of 1 7) (says 2 1 7 "again") 11
    ∷ upsert (owner_of 1 7) (says 3 1 7 "third") 12
    ∷ upsert (owner_of 2 8) (says 4 2 8 "other") 13
    ∷ upsert (owner_of 3 9) (says 5 3 9 "third session") 14
    ∷ load_session (owner_of 3 9) 15
    ∷ []

abbrev sequence_numbers : List ConversationTurn → List ℕ
sequence_numbers = map (λ (t : ConversationTurn). t.sequence_number)

abbrev numbers : List (ℕ × Session) → List (ℕ × List ℕ)
numbers [] = []
numbers ((key, s) ∷ rest) = (key, sequence_numbers s.turns) ∷ numbers rest

-- The third turn evicts the first; the third session evicts the one that was used least lately.
run-script : numbers (run limits env script nothing).sessions ≡ (2, 1 ∷ []) ∷ (3, 1 ∷ []) ∷ []
unfolding run step load upsert_turn open_session write_turn append_turn make_turn find_turn
    make_capacity evict_turns expired_keys remove_all oldest_from is_valid_turn turn_characters
    total_characters reference_count same_ownership
run-script = refl

nothing-IsValid : IsValid limits nothing
nothing-IsValid = record { bounded = omega arith; entries = tt }

run-IsValid_example : IsValid limits (run limits env script nothing)
run-IsValid_example = run-IsValid limits env script nothing nothing-IsValid

abbrev three_turns : List ConversationTurn
three_turns =
    make_turn env (says 1 1 7 "a") 1
    ∷ make_turn env (says 2 1 7 "b") 2
    ∷ make_turn env (says 3 1 7 "c") 3
    ∷ []

evict_turns-LongestFit_example :
    LongestFit limits three_turns
      (evict_turns limits three_turns).0
      (evict_turns limits three_turns).1
evict_turns-LongestFit_example = evict_turns-LongestFit limits three_turns

abbrev answer : MemoryWriteResult
answer = record {
  stored = true;
  duplicate = false;
  sequence_number = some 1;
  eviction = record { evicted_turns = 0; evicted_sessions = 0 };
}

abbrev hello_session : Session
hello_session = record {
  ownership = owner_of 1 7;
  turns = record { turn_id = 1001; sequence_number = 1; update = says 1 1 7 "hello" } ∷ [];
  next_sequence = 2;
  expires_at = 110;
  last_accessed = 10;
}

abbrev hello : Catalog
hello = record { sessions = (1, hello_session) ∷ []; expired_removed = 0 }

upsert_twice_example :
    upsert_turn limits env
      (owner_of 1 7)
      (says 1 1 7 "hello")
      60
      (upsert_turn limits env (owner_of 1 7) (says 1 1 7 "hello") 10 nothing).1
    ≡ (
      ok (repeated limits env answer),
      (upsert_turn limits env (owner_of 1 7) (says 1 1 7 "hello") 10 nothing).1,
    )
unfolding upsert_turn open_session write_turn append_turn make_turn find_turn make_capacity
    evict_turns expired_keys remove_all is_valid_turn turn_characters total_characters
    reference_count same_ownership
upsert_twice_example =
    upsert_twice limits env (owner_of 1 7) (says 1 1 7 "hello") 10 60 nothing {r = answer}
      (omega arith) refl refl (omega arith)

load-owner_example :
    (s : Session) × (lookup 1 hello.sessions ≡ some s)
    × (s.ownership ≡ owner_of 1 7)
    × (20 < s.expires_at)
    × (snapshot limits env hello_session ≡ snapshot limits env s)
unfolding load same_ownership
load-owner_example = load-owner limits env (owner_of 1 7) 20 hello refl

stranger_refused_example :
    (load limits env (owner_of 1 8) 20 hello ≡ (err not_owner, hello))
    × (upsert_turn limits env (owner_of 1 8) (says 1 1 8 "mine") 20 hello ≡ (err not_owner, hello))
    × (delete (owner_of 1 8) hello ≡ (err not_owner, hello))
    × (owns 1 (owner_of 1 8) hello ≡ false)
stranger_refused_example =
    stranger_refused limits env (owner_of 1 8) (says 1 1 8 "mine") 20 hello hello_session refl
      (λ e. absurd (ground arith)) (omega arith)

abbrev reader : Principal
reader = record {
  identity = record {
    user_id = 7;
    username = "reader";
    display_name = "Reader";
    role = UserRole.viewer;
  };
  permissions = ToolPermission.knowledge_search ∷ [];
  authenticated_at = 0;
  expires_at = 100;
}

abbrev item_of : ℕ → AccessLevel → MemoryEvidence
item_of chunk level = record {
  reference = record {
    evidence_id = chunk;
    chunk_id = chunk;
    document_id = 1;
    title = "Policy";
    source_file = "policy.md";
    section_path = [];
    document_type = DocumentType.policy;
    department = "IT";
    access_level = level;
    version = "1";
    updated_date = 0;
    final_rank = 1;
  };
  allowed_roles = UserRole.viewer ∷ [];
}

abbrev evidence : List MemoryEvidence
evidence =
    item_of 1 AccessLevel.public
    ∷ item_of 2 AccessLevel.restricted
    ∷ item_of 1 AccessLevel.public
    ∷ []

abbrev service : ServiceSettings
service = record {
  memory_enabled = true;
  redact = true;
  max_user_characters = 10;
  max_assistant_characters = 10;
  max_evidence_references = 3;
  max_warnings = 3;
}

abbrev service_tools : ServiceTools
service_tools = record { fingerprint = λ s. s; redacted = λ s. s; prefix = λ n s. s }

evidence_references-Sourced_example :
    (length (evidence_references service service_tools evidence reader) ≤ 3)
    × All (Sourced reader evidence) (evidence_references service service_tools evidence reader)
    × DistinctChunks reader (evidence_references service service_tools evidence reader)
evidence_references-Sourced_example =
    evidence_references-Sourced reader service service_tools evidence

-- ===== src/Memory/Catalog.antt =====
-- backend/src/enterprise_ai/memory/in_memory.py: the sessions, the sums of a snapshot, the choice of
-- what is dropped. Times and the time to live are in the same ticks.
pub mod Evict
use enterprise_ai_knowledge.Common.{
  nat_eq, map, ◌≤◌, ◌∷◌, ℕ, take, suc, some, remove, none, ltb, length, leb, keep_if, if◌then◌else◌,
  all_of, [], String, Option, List, Dict, Bool, ◌+◌, ◌&&◌,
}
use enterprise_ai_knowledge.Memory.Context.{TextTools}
use enterprise_ai_knowledge.Memory.Models.{SessionOwnership, ConversationTurn, MemoryUpdate}
use Prim.Native.String.{count}

-- The settings that the store reads.
pub record MemorySettings : Type 0 where
  pub max_sessions : ℕ
  pub max_turns : ℕ
  pub max_total_characters : ℕ
  pub max_evidence_references : ℕ
  pub session_ttl : ℕ
  pub max_context_topics : ℕ
  pub max_context_identifiers : ℕ

-- What the store takes from libraries: `uuid5` of a session and a request, the text functions.
pub record Environment : Type 0 where
  pub turn_identifier : ℕ → ℕ → ℕ
  pub tools : TextTools

pub data MemoryError : Type 0 where
  not_owner integrity capacity : MemoryError
  invalid_turn no_session : MemoryError

pub data Reply {ℓ} (A : Type ℓ) : Type ℓ where
  ok : A → Reply A
  err : MemoryError → Reply A

pub record Session : Type 0 where
  pub ownership : SessionOwnership
  pub turns : List ConversationTurn
  pub next_sequence : ℕ
  pub expires_at : ℕ
  pub last_accessed : ℕ

pub record Catalog : Type 0 where
  pub sessions : Dict ℕ Session
  pub expired_removed : ℕ

unfoldable pub turn_characters : ConversationTurn → ℕ
turn_characters t = count t.update.user_message + count t.update.assistant_message

-- The sums of `_snapshot`.
unfoldable pub total_characters : List ConversationTurn → ℕ
total_characters [] = 0
total_characters (t ∷ ts) = turn_characters t + total_characters ts

unfoldable pub reference_count : List ConversationTurn → ℕ
reference_count [] = 0
reference_count (t ∷ ts) = length t.update.evidence_references + reference_count ts

-- A field of bounded length, as pydantic validates it.
abbrev has_length : ℕ → ℕ → String → Bool
has_length lower upper text = leb lower (count text) && leb (count text) upper

-- The length limits of `ConversationTurn`.
unfoldable pub is_valid_turn : MemoryUpdate → Bool
is_valid_turn u =
    has_length 1 4000 u.user_message
    && has_length 1 8000 u.assistant_message
    && all_of (has_length 0 500) u.warnings

abbrev pub is_expired : ℕ → Session → Bool
is_expired now session = leb session.expires_at now

-- `_make_capacity`'s and `cleanup_expired`'s list of expired keys.
unfoldable pub expired_keys : ℕ → ℕ → Dict ℕ Session → List ℕ
expired_keys maximum now sessions = take maximum (
    map (λ (entry : ℕ × Session). entry.0)
      (keep_if (λ (entry : ℕ × Session). is_expired now entry.1) sessions))

unfoldable pub remove_all : List ℕ → Dict ℕ Session → Dict ℕ Session
remove_all [] sessions = sessions
remove_all (key ∷ keys) sessions = remove_all keys (remove key sessions)

-- `min(items, key=last_accessed)`: the first of the least, as the entry found so far.
unfoldable pub oldest_from : ℕ × Session → Dict ℕ Session → ℕ
oldest_from best [] = best.0
oldest_from best (entry ∷ rest) =
    oldest_from (if ltb entry.1.last_accessed best.1.last_accessed then entry else best) rest

abbrev pub oldest : Dict ℕ Session → Option ℕ
oldest [] = none
oldest (entry ∷ rest) = some (oldest_from entry rest)

module _ (settings : MemorySettings) where
  abbrev pub Fits : List ConversationTurn → Type 0
  Fits turns =
      (length turns ≤ settings.max_turns)
      × (total_characters turns ≤ settings.max_total_characters)
      × (reference_count turns ≤ settings.max_evidence_references)

  -- The test of `_evict_turns`.
  abbrev pub fits : List ConversationTurn → Bool
  fits turns =
      leb (length turns) settings.max_turns
      && leb (total_characters turns) settings.max_total_characters
      && leb (reference_count turns) settings.max_evidence_references

  -- The loop of `_evict_turns`: the turns that stay, and how many were evicted.
  unfoldable pub evict_turns : List ConversationTurn → List ConversationTurn × ℕ
  evict_turns [] = ([], 0)
  evict_turns (t ∷ ts) =
      let (kept, evicted) = evict_turns ts in
      if fits (t ∷ ts) then (t ∷ ts, 0) else (kept, suc evicted)

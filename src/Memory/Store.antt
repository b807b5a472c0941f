-- ===== src/Memory/Store.antt =====
-- backend/src/enterprise_ai/memory/in_memory.py: `InMemoryConversationStore`. A call suspends only
-- at its locks, so each operation is one step on the catalog of sessions, and `now` is what the
-- clock returned in it.
pub mod Capacity
pub mod Runs
pub mod Bounds
pub mod Retry
pub mod Owner
use enterprise_ai_knowledge.Common.{
  nat_eq, ◌∷◌, ℕ, ◌||◌, true, some, remove, not, none, map, ltb, lookup, length, leb, insert, false,
  if◌then◌else◌, [], Option, List, Dict, Bool, ◌==◌, ◌++◌, ◌+◌,
}
use enterprise_ai_knowledge.Memory.Catalog.{
  integrity, capacity, turn_characters, invalid_turn, no_session, oldest, err, ok, is_valid_turn,
  is_expired, evict_turns, reference_count, not_owner, total_characters, remove_all, Environment,
  Reply, expired_keys, MemorySettings, Session, Catalog,
}
use enterprise_ai_knowledge.Memory.Models.{
  same_turn, MemoryWriteResult, ConversationMemoryInspection, ConversationMemorySnapshot,
  ConversationTurn, MemoryUpdate, MemoryStoreStatistics, same_ownership, SessionOwnership,
}
use enterprise_ai_knowledge.Memory.Context.{build_context}

-- `_turn`
unfoldable pub make_turn : Environment → MemoryUpdate → ℕ → ConversationTurn
make_turn env update sequence = record {
  turn_id = env.turn_identifier update.session_id update.request_id;
  sequence_number = sequence;
  update = update;
}

-- The first turn of the request, if any.
unfoldable pub find_turn : ℕ → List ConversationTurn → Option ConversationTurn
find_turn request_id [] = none
find_turn request_id (t ∷ ts) =
    if t.update.request_id == request_id then some t else find_turn request_id ts

module _ (settings : MemorySettings) where
  unfoldable pub make_capacity : ℕ → Catalog → Reply Catalog
  make_capacity now c =
      let expired = expired_keys 100 now c.sessions in
      let left = remove_all expired c.sessions in
      let c' : Catalog = record {
        sessions = left;
        expired_removed = c.expired_removed + length expired;
      } in
      if leb settings.max_sessions (length left)
      then elim (oldest left) [
        | none ↦ err no_session
        | some key ↦ ok (record c' { sessions = remove key left })
      ]
      else ok c'

  module _ (env : Environment) where
    unfoldable pub snapshot : Session → ConversationMemorySnapshot
    snapshot session = record {
      session_id = session.ownership.session_id;
      turn_count = length session.turns;
      total_characters = total_characters session.turns;
      evidence_reference_count = reference_count session.turns;
      turns = session.turns;
      context =
          build_context env.tools session.turns settings.max_context_topics
            settings.max_context_identifiers;
      expires_at = session.expires_at;
    }

    unfoldable pub load :
        SessionOwnership → ℕ → Catalog → Reply (Option ConversationMemorySnapshot) × Catalog
    load ownership now c = elim (lookup ownership.session_id c.sessions) [
      | none ↦ (ok none, c)
      | some session ↦
          if not (same_ownership session.ownership ownership)
          then (err not_owner, c)
          else if is_expired now session
          then (
            ok none,
            record {
              sessions = remove ownership.session_id c.sessions;
              expired_removed = c.expired_removed + 1;
            },
          )
          else (
            ok (some (snapshot session)),
            record c {
              sessions =
                  insert ownership.session_id (record session { last_accessed = now }) c.sessions;
            },
          )
    ]

    -- Lines 126 to 142: a new turn of an owned session.
    unfoldable pub append_turn :
        SessionOwnership → MemoryUpdate → ℕ → Session → Catalog → Reply MemoryWriteResult × Catalog
    append_turn ownership update now session c =
        let turn = make_turn env update session.next_sequence in
        let (kept, evicted) = evict_turns settings (session.turns ++ turn ∷ []) in
        if not (is_valid_turn update)
        then (err invalid_turn, c)
        else if ltb settings.max_total_characters (turn_characters turn)
        then (err capacity, c)
        else (
          ok (record {
            stored = true;
            duplicate = false;
            sequence_number = some turn.sequence_number;
            eviction = record { evicted_turns = evicted; evicted_sessions = 0 };
          }),
          record c {
            sessions =
                insert ownership.session_id
                  (record {
                    ownership = session.ownership;
                    turns = kept;
                    next_sequence = session.next_sequence + 1;
                    expires_at = now + settings.session_ttl;
                    last_accessed = now;
                  })
                  c.sessions;
          },
        )

    -- Lines 115 to 142: the owner's check, the repetition of a request, a new turn.
    unfoldable pub write_turn :
        SessionOwnership → MemoryUpdate → ℕ → Session → Catalog → Reply MemoryWriteResult × Catalog
    write_turn ownership update now session c =
        if not (same_ownership session.ownership ownership)
        then (err not_owner, c)
        else elim (find_turn update.request_id session.turns) [
          | none ↦ append_turn ownership update now session c
          | some existing ↦
              if not (is_valid_turn update)
              then (err invalid_turn, c)
              else if not (same_turn existing (make_turn env update existing.sequence_number))
              then (err integrity, c)
              else (
                ok (record {
                  stored = false;
                  duplicate = true;
                  sequence_number = some existing.sequence_number;
                  eviction = record { evicted_turns = 0; evicted_sessions = 0 };
                }),
                c,
              )
        ]

    abbrev pub new_session : SessionOwnership → ℕ → Session
    new_session ownership now = record {
      ownership = ownership;
      turns = [];
      next_sequence = 1;
      expires_at = now + settings.session_ttl;
      last_accessed = now;
    }

    -- Lines 105 to 115: room for a new session, then the turn.
    unfoldable pub open_session :
        SessionOwnership
        → MemoryUpdate
        → ℕ
        → Reply Catalog
        → Catalog
        → Reply MemoryWriteResult × Catalog
    open_session ownership update now (err e) c = (err e, c)
    open_session ownership update now (ok room) c =
        write_turn ownership update now (new_session ownership now) (record room {
          sessions = insert ownership.session_id (new_session ownership now) room.sessions;
        })

    unfoldable pub upsert_turn :
        SessionOwnership → MemoryUpdate → ℕ → Catalog → Reply MemoryWriteResult × Catalog
    upsert_turn ownership update now c =
        let dropped : Catalog = record {
          sessions = remove ownership.session_id c.sessions;
          expired_removed = c.expired_removed + 1;
        } in
        if not (update.session_id == ownership.session_id)
          || not (update.user_id == ownership.user_id)
        then (err not_owner, c)
        else elim (lookup ownership.session_id c.sessions) [
          | none ↦ open_session ownership update now (make_capacity now c) c
          | some session ↦
              if is_expired now session
              then open_session ownership update now (make_capacity now dropped) dropped
              else write_turn ownership update now session c
        ]

    unfoldable pub inspect :
        SessionOwnership → ℕ → Catalog → Reply (Option ConversationMemoryInspection) × Catalog
    inspect ownership now c =
        let (found, c') = load ownership now c in
        (
          elim found [
            | err e ↦ err e
            | ok none ↦ ok none
            | ok (some s) ↦ ok (
                some (record {
                  session_id = ownership.session_id;
                  owner_id = ownership.user_id;
                  turn_count = s.turn_count;
                  sequence_numbers = map (λ (t : ConversationTurn). t.sequence_number) s.turns;
                  character_count = s.total_characters;
                  evidence_reference_count = s.evidence_reference_count;
                  expired = false;
                }))
          ],
          c',
        )

unfoldable pub delete : SessionOwnership → Catalog → Reply Bool × Catalog
delete ownership c = elim (lookup ownership.session_id c.sessions) [
  | none ↦ (ok false, c)
  | some session ↦
      if same_ownership session.ownership ownership
      then (ok true, record c { sessions = remove ownership.session_id c.sessions })
      else (err not_owner, c)
]

unfoldable pub cleanup_expired : ℕ → ℕ → Catalog → ℕ × Catalog
cleanup_expired maximum now c =
    let expired = expired_keys maximum now c.sessions in
    (
      length expired,
      record {
        sessions = remove_all expired c.sessions;
        expired_removed = c.expired_removed + length expired;
      },
    )

total_turns : Dict ℕ Session → ℕ
total_turns [] = 0
total_turns ((key, session) ∷ rest) = length session.turns + total_turns rest

unfoldable pub statistics : Catalog → MemoryStoreStatistics
unfolding total_turns
statistics c = record {
  active_sessions = length c.sessions;
  total_turns = total_turns c.sessions;
  expired_sessions_removed = c.expired_removed;
}

-- `owns`: no session of the identifier, or one of this owner.
unfoldable pub owns : ℕ → SessionOwnership → Catalog → Bool
owns session_id ownership c = elim (lookup session_id c.sessions) [
  | none ↦ true
  | some session ↦ same_ownership session.ownership ownership
]

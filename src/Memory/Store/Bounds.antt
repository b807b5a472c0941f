-- ===== src/Memory/Store/Bounds.antt =====
-- The invariant of the catalog, and that every operation keeps it.
use enterprise_ai_knowledge.Common.{
  ◌||◌, remove, not, lookup-insert_self, length-remove-le, length-insert-le, Option-cases,
  Entries-remove, Entries-lookup, ◌==◌, nat_eq, ◌≤◌, ◌≢◌, ◌≡◌, ◌∷◌, ℕ, zero, suc, refl, none, ltb,
  lookup, length-insert_found, length, inr, inl, drop, arith, [], List, Entries-insert, Entries,
  Bool-cases, ◌++◌, ◌+◌,
}
use enterprise_ai_knowledge.Memory.Models.{
  same_turn, same_ownership, MemoryUpdate, SessionOwnership, ConversationTurn,
}
use enterprise_ai_knowledge.Memory.Catalog.{
  reference_count, total_characters, ok, err, Reply, expired_keys, is_expired, evict_turns,
  turn_characters, is_valid_turn, Fits, Session, Catalog, Environment, MemorySettings,
}
use enterprise_ai_knowledge.Memory.Store.{
  new_session, find_turn, make_capacity, upsert_turn, delete, write_turn, open_session, load,
  cleanup_expired, make_turn, append_turn,
}
use enterprise_ai_knowledge.Memory.Catalog.Evict.{evict_turns-LongestFit}
use enterprise_ai_knowledge.Memory.Store.Runs.{
  cleanup, delete_session, upsert, load_session, Operation, step, run,
}
use enterprise_ai_knowledge.Memory.Store.Capacity.{
  make_capacity-room, remove_all-Entries, length-remove_all-le,
}

-- Sequence numbers rise from `lo` on and stay below `hi`.
abbrev pub Numbered : ℕ → ℕ → List ConversationTurn → Type 0
Numbered lo hi [] = lo ≤ hi
Numbered lo hi (t ∷ ts) = (lo ≤ t.sequence_number) × Numbered (t.sequence_number + 1) hi ts

Numbered-weaken :
    (lo lo' hi : ℕ) (ts : List ConversationTurn) → lo ≤ lo' → Numbered lo' hi ts → Numbered lo hi ts
Numbered-weaken lo lo' hi [] h n = omega arith
Numbered-weaken lo lo' hi (t ∷ ts) h n = (omega arith, n.1)

Numbered-drop :
    (k lo hi : ℕ) (ts : List ConversationTurn) → Numbered lo hi ts → Numbered lo hi (drop k ts)
Numbered-drop zero lo hi ts n = n
Numbered-drop (suc k) lo hi [] n = n
Numbered-drop (suc k) lo hi (t ∷ ts) n =
    Numbered-drop k lo hi ts (Numbered-weaken lo (t.sequence_number + 1) hi ts (omega arith) n.1)

Numbered-append :
    (lo hi : ℕ) (ts : List ConversationTurn) (t : ConversationTurn)
    → t.sequence_number ≡ hi
    → Numbered lo hi ts
    → Numbered lo (hi + 1) (ts ++ t ∷ [])
Numbered-append lo hi [] t e n = (omega arith, omega arith)
Numbered-append lo hi (x ∷ ts) t e n = (n.0, Numbered-append (x.sequence_number + 1) hi ts t e n.1)

module _ (settings : MemorySettings) where
  -- A session is stored under its own identifier, fits the limits, and its turns are numbered in
  -- the order in which they came, below the next number.
  abbrev pub SessionIsValid : ℕ → Session → Type 0
  SessionIsValid key s =
      (s.ownership.session_id ≡ key) × Fits settings s.turns × Numbered 1 s.next_sequence s.turns

  pub record IsValid (c : Catalog) : Type 0 where
    pub bounded : length c.sessions ≤ settings.max_sessions
    pub entries : Entries SessionIsValid c.sessions

  module _ (env : Environment) where
    append_turn-IsValid :
        (o : SessionOwnership) (u : MemoryUpdate) (now : ℕ) (s : Session) (c : Catalog)
        → IsValid c
        → SessionIsValid o.session_id s
        → lookup o.session_id c.sessions ≢ none
        → IsValid (append_turn settings env o u now s c).1
    unfolding append_turn make_turn
    append_turn-IsValid o u now s c v h there = elim (Bool-cases (is_valid_turn u)) [
      | inr bad ↦ rw bad v
      | inl good ↦
          let turn = make_turn env u s.next_sequence in
          let all = s.turns ++ turn ∷ [] in
          let longest = evict_turns-LongestFit settings all in
          elim (Bool-cases (ltb settings.max_total_characters (turn_characters turn))) [
            | inl large ↦ rw (good, large) v
            | inr small ↦
                rw (good, small)
                  (record {
                    bounded = omega (
                      arith,
                      length-insert_found o.session_id
                          (record {
                            ownership = s.ownership;
                            turns = (evict_turns settings all).0;
                            next_sequence = s.next_sequence + 1;
                            expires_at = now + settings.session_ttl;
                            last_accessed = now;
                          })
                          c.sessions there,
                      v.bounded,
                    );
                    entries =
                        Entries-insert SessionIsValid o.session_id _ c.sessions
                          (
                            h.0,
                            longest.within,
                            rw longest.is_end (
                                Numbered-drop (evict_turns settings all).1 1 (s.next_sequence + 1)
                                  all (Numbered-append 1 s.next_sequence s.turns turn refl h.2)),
                          )
                          v.entries;
                  })
          ]
    ]

    write_turn-IsValid :
        (o : SessionOwnership) (u : MemoryUpdate) (now : ℕ) (s : Session) (c : Catalog)
        → IsValid c
        → SessionIsValid o.session_id s
        → lookup o.session_id c.sessions ≢ none
        → IsValid (write_turn settings env o u now s c).1
    unfolding write_turn
    write_turn-IsValid o u now s c v h there = elim (Bool-cases (same_ownership s.ownership o)) [
      | inr other ↦ rw other v
      | inl owner ↦ elim (Option-cases (find_turn u.request_id s.turns)) [
        | inl new ↦ rw (owner, new) (append_turn-IsValid o u now s c v h there)
        | inr (t, old) ↦ elim (Bool-cases (is_valid_turn u)) [
          | inr bad ↦ rw (owner, old, bad) v
          | inl good ↦ elim (Bool-cases (same_turn t (make_turn env u t.sequence_number))) [
            | inl same ↦ rw (owner, old, good, same) v
            | inr differs ↦ rw (owner, old, good, differs) v
          ]
        ]
      ]
    ]

    open_session-IsValid :
        (o : SessionOwnership) (u : MemoryUpdate) (now : ℕ) (c : Catalog)
        → IsValid c
        → IsValid (open_session settings env o u now (make_capacity settings now c) c).1
    unfolding open_session
    open_session-IsValid o u now c v = go (make_capacity settings now c) refl
      where
        go :
            (room : Reply Catalog)
            → make_capacity settings now c ≡ room
            → IsValid (open_session settings env o u now room c).1
        go (err e) h = v
        go (ok room) h =
            let (below, kept) =
              make_capacity-room settings SessionIsValid now c room v.bounded v.entries h in
            let fresh : SessionIsValid o.session_id (new_session settings env o now) =
              unfold total_characters reference_count in (refl, omega arith, omega arith) in
            write_turn-IsValid o u now (new_session settings env o now) _
              (record {
                bounded = omega (
                  arith,
                  length-insert-le o.session_id (new_session settings env o now) room.sessions,
                );
                entries = Entries-insert SessionIsValid o.session_id _ room.sessions fresh kept;
              })
              fresh (rw lookup-insert_self (λ missing. ground arith))

    remove-IsValid :
        (key : ℕ) (n : ℕ) (c : Catalog)
        → IsValid c
        → IsValid (record { sessions = remove key c.sessions; expired_removed = n })
    remove-IsValid key n c v = record {
      bounded = omega (arith, length-remove-le key c.sessions, v.bounded);
      entries = Entries-remove SessionIsValid key c.sessions v.entries;
    }

    upsert_turn-IsValid :
        (o : SessionOwnership) (u : MemoryUpdate) (now : ℕ) (c : Catalog)
        → IsValid c
        → IsValid (upsert_turn settings env o u now c).1
    unfolding upsert_turn
    upsert_turn-IsValid o u now c v =
        elim (Bool-cases (not (u.session_id == o.session_id) || not (u.user_id == o.user_id))) [
          | inl foreign ↦ rw foreign v
          | inr own ↦ elim (Option-cases (lookup o.session_id c.sessions)) [
            | inl absent ↦ rw (own, absent) (open_session-IsValid o u now c v)
            | inr (s, found) ↦ elim (Bool-cases (is_expired now s)) [
              | inl old ↦
                  rw (own, found, old)
                    (open_session-IsValid o u now _ (remove-IsValid o.session_id _ c v))
              | inr live ↦
                  rw (own, found, live)
                    (write_turn-IsValid o u now s c v
                      (Entries-lookup SessionIsValid o.session_id c.sessions v.entries found)
                      (λ missing. ground arith))
            ]
          ]
        ]

    load-IsValid :
        (o : SessionOwnership) (now : ℕ) (c : Catalog)
        → IsValid c
        → IsValid (load settings env o now c).1
    unfolding load
    load-IsValid o now c v = elim (Option-cases (lookup o.session_id c.sessions)) [
      | inl absent ↦ rw (absent, load) v
      | inr (s, found) ↦ elim (Bool-cases (same_ownership s.ownership o)) [
        | inr other ↦ rw (found, other, load) v
        | inl owner ↦ elim (Bool-cases (is_expired now s)) [
          | inl old ↦ rw (found, owner, old, load) (remove-IsValid o.session_id _ c v)
          | inr live ↦
              rw (found, owner, live, load)
                (record {
                  bounded = omega (
                    arith,
                    length-insert_found o.session_id (record s { last_accessed = now }) c.sessions
                        (λ missing. ground arith),
                    v.bounded,
                  );
                  entries =
                      Entries-insert SessionIsValid o.session_id (record s { last_accessed = now })
                        c.sessions
                        (Entries-lookup SessionIsValid o.session_id c.sessions v.entries found)
                        v.entries;
                })
        ]
      ]
    ]

    delete-IsValid : (o : SessionOwnership) (c : Catalog) → IsValid c → IsValid (delete o c).1
    unfolding delete
    delete-IsValid o c v = elim (Option-cases (lookup o.session_id c.sessions)) [
      | inl absent ↦ rw (absent, delete) v
      | inr (s, found) ↦ elim (Bool-cases (same_ownership s.ownership o)) [
        | inr other ↦ rw (found, other, delete) v
        | inl owner ↦ rw (found, owner, delete) (remove-IsValid o.session_id _ c v)
      ]
    ]

    cleanup_expired-IsValid :
        (maximum now : ℕ) (c : Catalog) → IsValid c → IsValid (cleanup_expired maximum now c).1
    unfolding cleanup_expired
    cleanup_expired-IsValid maximum now c v = record {
      bounded =
          omega (
            arith,
            length-remove_all-le (expired_keys maximum now c.sessions) c.sessions,
            v.bounded,
          );
      entries =
          remove_all-Entries SessionIsValid (expired_keys maximum now c.sessions) c.sessions
            v.entries;
    }

    -- Operations on a valid catalog, in any order and whether they succeed or fail, leave it valid:
    -- at most the configured number of sessions, each under its own identifier and within the
    -- limits on its turns, which are numbered in their order below the session's next number.
    pub run-IsValid :
        (ops : List Operation) (c : Catalog) → IsValid c → IsValid (run settings env ops c)
    unfolding run step
    run-IsValid [] c v = v
    run-IsValid (load_session o now ∷ ops) c v = run-IsValid ops _ (load-IsValid o now c v)
    run-IsValid (upsert o u now ∷ ops) c v = run-IsValid ops _ (upsert_turn-IsValid o u now c v)
    run-IsValid (delete_session o ∷ ops) c v = run-IsValid ops _ (delete-IsValid o c v)
    run-IsValid (cleanup maximum now ∷ ops) c v =
        run-IsValid ops _ (cleanup_expired-IsValid maximum now c v)

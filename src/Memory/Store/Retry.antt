-- ===== src/Memory/Store/Retry.antt =====
-- A request that is written twice is stored once.
use enterprise_ai_knowledge.Common.{
  sym, ap, Option, ◌||◌, not, ◌==◌, false, Option-cases, ◌<◌, nat_eq, ◌≤◌, ◌≡◌, ◌∷◌, ◌∙◌, ℕ, zero,
  true, suc, some, refl, none, ltb, lookup-insert_self, lookup, length, inr, inl, drop, arith, [],
  List, Bool-cases, ◌++◌, ◌+◌,
}
use enterprise_ai_knowledge.Memory.Store.{
  new_session, make_capacity, open_session, upsert_turn, write_turn, make_turn, append_turn,
  find_turn,
}
use enterprise_ai_knowledge.Memory.Models.{
  same_ownership_iff, same_ownership, MemoryWriteResult, SessionOwnership, MemoryUpdate,
  same_update_refl, same_turn, ConversationTurn,
}
use enterprise_ai_knowledge.Memory.Catalog.{
  err, Reply, is_expired, reference_count, total_characters, turn_characters, is_valid_turn, ok,
  Catalog, Session, evict_turns, Fits, Environment, MemorySettings,
}
use enterprise_ai_knowledge.Memory.Catalog.Evict.{evict_turns-LongestFit}
use native.Mathlib.Decide.{dec_lt}

find_turn-append :
    (id : ℕ) (ts : List ConversationTurn) (t : ConversationTurn)
    → find_turn id ts ≡ none
    → t.update.request_id ≡ id
    → find_turn id (ts ++ t ∷ []) ≡ some t
unfolding find_turn
find_turn-append id [] t h e = ground arith
find_turn-append id (x ∷ ts) t h e = ground (arith, find_turn-append id ts t)

find_turn-drop :
    (id k : ℕ) (ts : List ConversationTurn)
    → find_turn id ts ≡ none
    → find_turn id (drop k ts) ≡ none
unfolding find_turn
find_turn-drop id zero ts h = h
find_turn-drop id (suc k) [] h = h
find_turn-drop id (suc k) (x ∷ ts) h = find_turn-drop id k ts (ground arith)

drop-append :
    (k : ℕ) (ts : List ConversationTurn) (t : ConversationTurn)
    → k ≤ length ts
    → drop k (ts ++ t ∷ []) ≡ drop k ts ++ t ∷ []
drop-append zero ts t h = refl
drop-append (suc k) [] t h = absurd (omega arith)
drop-append (suc k) (x ∷ ts) t h = drop-append k ts t (omega arith)

drop-length :
    (ts : List ConversationTurn) (t : ConversationTurn) → drop (length ts) (ts ++ t ∷ []) ≡ t ∷ []
drop-length [] t = refl
drop-length (x ∷ ts) t = drop-length ts t

same_turn_refl : (t : ConversationTurn) → same_turn t t ≡ true
unfolding same_turn
same_turn_refl t = ground (arith, same_update_refl t.update)

module _ (settings : MemorySettings) (env : Environment) where
  -- The newest turn survives eviction when it fits the limits on its own.
  find_turn-evict :
      (id : ℕ) (ts : List ConversationTurn) (t : ConversationTurn)
      → find_turn id ts ≡ none
      → t.update.request_id ≡ id
      → Fits settings (t ∷ [])
      → find_turn id (evict_turns settings (ts ++ t ∷ [])).0 ≡ some t
  find_turn-evict id ts t new e alone =
      let all = ts ++ t ∷ [] in
      let n = (evict_turns settings all).1 in
      let longest = evict_turns-LongestFit settings all in
      let short : n ≤ length ts = elim (dec_lt (length ts) n) [
        | yes over ↦ absurd (longest.least (length ts) over (rw (drop-length ts t) alone))
        | no under ↦ omega arith
      ] in
      rw (longest.is_end ∙ drop-append n ts t short)
        (find_turn-append id (drop n ts) t (find_turn-drop id n ts new) e)

  -- What the catalog holds once an update has been stored.
  pub record Wrote (o : SessionOwnership) (u : MemoryUpdate) (now : ℕ) (r : MemoryWriteResult)
      (c : Catalog) : Type 0 where
    pub sequence : ℕ
    pub session : Session
    pub reported : r.sequence_number ≡ some sequence
    pub is_held : lookup o.session_id c.sessions ≡ some session
    pub owner : session.ownership ≡ o
    pub expiry : session.expires_at ≡ now + settings.session_ttl
    pub turn : find_turn u.request_id session.turns ≡ some (make_turn env u sequence)
    pub is_valid : is_valid_turn u ≡ true

  -- The limits leave room for one turn with these references.
  abbrev pub Room : MemoryUpdate → Type 0
  Room u =
      (1 ≤ settings.max_turns) × (length u.evidence_references ≤ settings.max_evidence_references)

  one-Fits :
      (u : MemoryUpdate) (n : ℕ)
      → Room u
      → ltb settings.max_total_characters (turn_characters (make_turn env u n)) ≡ false
      → Fits settings (make_turn env u n ∷ [])
  unfolding total_characters reference_count make_turn
  one-Fits u n room small = (room.0, ground arith, ground arith)

  abbrev answered : Reply MemoryWriteResult → Option ℕ
  answered (ok r) = r.sequence_number
  answered (err e) = none

  append_turn-Wrote :
      (o : SessionOwnership) (u : MemoryUpdate) (now : ℕ) (s : Session) (c : Catalog)
      {r : MemoryWriteResult}
      → Room u
      → s.ownership ≡ o
      → find_turn u.request_id s.turns ≡ none
      → (append_turn settings env o u now s c).0 ≡ ok r
      → Wrote o u now r (append_turn settings env o u now s c).1
  unfolding append_turn make_turn
  append_turn-Wrote o u now s c room owner new h = elim (Bool-cases (is_valid_turn u)) [
    | inr bad ↦ absurd (ground arith)
    | inl good ↦
        elim (Bool-cases
          (ltb settings.max_total_characters (turn_characters (make_turn env u s.next_sequence)))) [
            | inl large ↦ absurd (ground arith)
            | inr small ↦
                rw (good, small)
                  (record {
                    sequence = s.next_sequence;
                    session = record {
                      ownership = s.ownership;
                      turns =
                          (evict_turns settings
                            (s.turns ++ make_turn env u s.next_sequence ∷ [])).0;
                      next_sequence = s.next_sequence + 1;
                      expires_at = now + settings.session_ttl;
                      last_accessed = now;
                    };
                    reported = sym (rw (good, small) at (ap answered h));
                    is_held = lookup-insert_self o.session_id _ c.sessions;
                    owner = owner;
                    expiry = refl;
                    turn =
                        find_turn-evict u.request_id s.turns (make_turn env u s.next_sequence) new
                          (unfold make_turn in refl) (one-Fits u s.next_sequence room small);
                    is_valid = good;
                  })
          ]
  ]

  write_turn-Wrote :
      (o : SessionOwnership) (u : MemoryUpdate) (now : ℕ) (s : Session) (c : Catalog)
      {r : MemoryWriteResult}
      → Room u
      → (write_turn settings env o u now s c).0 ≡ ok r
      → r.stored ≡ true
      → Wrote o u now r (write_turn settings env o u now s c).1
  unfolding write_turn
  write_turn-Wrote o u now s c room h stored = elim (Bool-cases (same_ownership s.ownership o)) [
    | inr other ↦ absurd (ground arith)
    | inl owner ↦ elim (Option-cases (find_turn u.request_id s.turns)) [
      | inl new ↦
          rw (owner, new)
            (append_turn-Wrote o u now s c room ((same_ownership_iff s.ownership o).0 owner) new
              (ground arith))
      | inr (t, old) ↦ absurd (ground arith)
    ]
  ]

  open_session-Wrote :
      (o : SessionOwnership) (u : MemoryUpdate) (now : ℕ) (c : Catalog) (room' : Reply Catalog)
      {r : MemoryWriteResult}
      → Room u
      → (open_session settings env o u now room' c).0 ≡ ok r
      → r.stored ≡ true
      → Wrote o u now r (open_session settings env o u now room' c).1
  unfolding open_session
  open_session-Wrote o u now c (err e) room h stored = absurd (ground arith)
  open_session-Wrote o u now c (ok left) room h stored =
      write_turn-Wrote o u now (new_session settings env o now) _ room h stored

  upsert_turn-Wrote :
      (o : SessionOwnership) (u : MemoryUpdate) (now : ℕ) (c : Catalog) {r : MemoryWriteResult}
      → Room u
      → (upsert_turn settings env o u now c).0 ≡ ok r
      → r.stored ≡ true
      → Wrote o u now r (upsert_turn settings env o u now c).1
  unfolding upsert_turn
  upsert_turn-Wrote o u now c room h stored =
      elim (Bool-cases (not (u.session_id == o.session_id) || not (u.user_id == o.user_id))) [
        | inl foreign ↦ absurd (ground arith)
        | inr own ↦ elim (Option-cases (lookup o.session_id c.sessions)) [
          | inl absent ↦
              rw (own, absent)
                (open_session-Wrote o u now c (make_capacity settings now c) room
                  (rw (own, absent) at h) stored)
          | inr (s, found) ↦ elim (Bool-cases (is_expired now s)) [
            | inl old ↦
                rw (own, found, old)
                  (open_session-Wrote o u now _ (make_capacity settings now _) room
                    (rw (own, found, old) at h) stored)
            | inr live ↦
                rw (own, found, live)
                  (write_turn-Wrote o u now s c room (rw (own, found, live) at h) stored)
          ]
        ]
      ]

  own_identity :
      (o : SessionOwnership) (u : MemoryUpdate) (now : ℕ) (c : Catalog) {r : MemoryWriteResult}
      → (upsert_turn settings env o u now c).0 ≡ ok r
      → (not (u.session_id == o.session_id) || not (u.user_id == o.user_id)) ≡ false
  unfolding upsert_turn
  own_identity o u now c h =
      elim (Bool-cases (not (u.session_id == o.session_id) || not (u.user_id == o.user_id))) [
        | inl foreign ↦ absurd (ground arith)
        | inr own ↦ own
      ]

  abbrev pub repeated : MemoryWriteResult → MemoryWriteResult
  repeated r = record {
    stored = false;
    duplicate = true;
    sequence_number = r.sequence_number;
    eviction = record { evicted_turns = 0; evicted_sessions = 0 };
  }

  write_turn-repeated :
      (o : SessionOwnership) (u : MemoryUpdate) (now later : ℕ) (c : Catalog)
      {r : MemoryWriteResult} (w : Wrote o u now r c)
      → write_turn settings env o u later w.session c ≡ (ok (repeated r), c)
  unfolding write_turn same_turn make_turn
  write_turn-repeated o u now later c w =
      rw
        (
          (same_ownership_iff w.session.ownership o).1 w.owner,
          w.turn,
          w.is_valid,
          same_turn_refl (make_turn env u w.sequence),
          w.reported,
        )
        (unfold make_turn in refl)

  again :
      (o : SessionOwnership) (u : MemoryUpdate) (now later : ℕ) (c : Catalog)
      {r : MemoryWriteResult}
      → Wrote o u now r c
      → later < now + settings.session_ttl
      → (not (u.session_id == o.session_id) || not (u.user_id == o.user_id)) ≡ false
      → upsert_turn settings env o u later c ≡ (ok (repeated r), c)
  unfolding upsert_turn
  again o u now later c w early own =
      let live : is_expired later w.session ≡ false = rw w.expiry (ground arith) in
      rw (own, w.is_held, live) (write_turn-repeated o u now later c w)

  -- Where a session may hold at least one turn, and at least as many references as the update has: a
  -- request that was stored, sent again before the session expires, is answered as a duplicate with
  -- the sequence number of the first, and the catalog stays as it was.
  pub upsert_twice :
      (o : SessionOwnership) (u : MemoryUpdate) (now later : ℕ) (c : Catalog)
      {r : MemoryWriteResult}
      → Room u
      → (upsert_turn settings env o u now c).0 ≡ ok r
      → r.stored ≡ true
      → later < now + settings.session_ttl
      → upsert_turn settings env o u later (upsert_turn settings env o u now c).1
        ≡ (ok (repeated r), (upsert_turn settings env o u now c).1)
  upsert_twice o u now later c {r} room h stored early =
      let w = upsert_turn-Wrote o u now c room h stored in
      again o u now later (upsert_turn settings env o u now c).1 w early (own_identity o u now c h)

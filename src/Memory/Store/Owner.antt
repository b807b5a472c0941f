-- ===== src/Memory/Store/Owner.antt =====
-- A session answers to its owner alone.
use enterprise_ai_knowledge.Common.{
  nat_eq, ◌≢◌, ◌≡◌, ℕ, some, lookup, inr, inl, false, arith, Option-cases, ◌<◌,
}
use enterprise_ai_knowledge.Memory.Catalog.{
  not_owner, err, Session, ok, Catalog, Environment, MemorySettings,
}
use enterprise_ai_knowledge.Memory.Store.{snapshot, owns, delete, write_turn, upsert_turn, load}
use enterprise_ai_knowledge.Memory.Models.{
  same_ownership_iff, MemoryUpdate, ConversationMemorySnapshot, SessionOwnership,
}

module _ (settings : MemorySettings) (env : Environment) where
  -- What a snapshot shows is the session of the one who asks, alive at the time.
  pub load-owner :
      (o : SessionOwnership) (now : ℕ) (c : Catalog) {found : ConversationMemorySnapshot}
      → (load settings env o now c).0 ≡ ok (some found)
      → (s : Session) × (lookup o.session_id c.sessions ≡ some s)
        × (s.ownership ≡ o)
        × (now < s.expires_at)
        × (found ≡ snapshot settings env s)
  unfolding load
  load-owner o now c h = elim (Option-cases (lookup o.session_id c.sessions)) [
    | inl absent ↦ absurd (ground arith)
    | inr (s, there) ↦
        (s, there, ground (arith, same_ownership_iff s.ownership o), ground arith, ground arith)
  ]

  -- Before a session expires, whoever has another ownership of its identifier (another user, role,
  -- set of permissions or policy) can neither read it, write to it nor delete it: each call is
  -- refused and changes nothing.
  pub stranger_refused :
      (o : SessionOwnership) (u : MemoryUpdate) (now : ℕ) (c : Catalog) (s : Session)
      → lookup o.session_id c.sessions ≡ some s
      → s.ownership ≢ o
      → now < s.expires_at
      → (load settings env o now c ≡ (err not_owner, c))
        × (upsert_turn settings env o u now c ≡ (err not_owner, c))
        × (delete o c ≡ (err not_owner, c))
        × (owns o.session_id o c ≡ false)
  unfolding load upsert_turn write_turn delete owns
  stranger_refused o u now c s there other live = (
    ground (arith, same_ownership_iff s.ownership o),
    ground (arith, same_ownership_iff s.ownership o),
    ground (arith, same_ownership_iff s.ownership o),
    ground (arith, same_ownership_iff s.ownership o),
  )

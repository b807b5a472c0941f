-- ===== src/Memory/Catalog/Evict.antt =====
-- Eviction keeps the longest run of the latest turns that fits the settings.
use enterprise_ai_knowledge.Common.{
  ◌≤◌, ◌≡◌, ◌∷◌, ℕ, zero, true, suc, refl, length, inr, inl, false, drop, arith, [], List,
  Bool-cases, ◌<◌,
}
use enterprise_ai_knowledge.Memory.Catalog.{
  reference_count, fits, total_characters, Fits, evict_turns, MemorySettings,
}
use enterprise_ai_knowledge.Memory.Models.{ConversationTurn}

module _ (settings : MemorySettings) where
  fits→Fits : (turns : List ConversationTurn) → fits settings turns ≡ true → Fits settings turns
  fits→Fits turns h = ground arith

  fits_not : (turns : List ConversationTurn) → fits settings turns ≡ false → ¬ Fits settings turns
  fits_not turns h k = ground arith

  -- The longest end of the turns that fits: what is dropped is a number of the oldest turns, what
  -- stays is within every limit, and dropping fewer would not do.
  pub record LongestFit (turns kept : List ConversationTurn) (evicted : ℕ) : Type 0 where
    pub is_end : kept ≡ drop evicted turns
    pub within : Fits settings kept
    pub least : (k : ℕ) → k < evicted → ¬ Fits settings (drop k turns)
    pub room : evicted ≤ length turns

  LongestFit-cons :
      (t : ConversationTurn) (ts : List ConversationTurn)
      → ¬ Fits settings (t ∷ ts)
      → LongestFit ts (evict_turns settings ts).0 (evict_turns settings ts).1
      → LongestFit (t ∷ ts) (evict_turns settings ts).0 (suc (evict_turns settings ts).1)
  LongestFit-cons t ts over h = record {
    is_end = h.is_end;
    within = h.within;
    least = elim [ zero ↦ λ lt. over | suc k ↦ λ lt. h.least k (omega arith) ];
    room = omega (arith, h.room);
  }

  -- Eviction stops at the longest end of the session's turns that the settings allow.
  pub evict_turns-LongestFit :
      (turns : List ConversationTurn)
      → LongestFit turns (evict_turns settings turns).0 (evict_turns settings turns).1
  unfolding evict_turns total_characters reference_count
  evict_turns-LongestFit [] = record {
    is_end = refl;
    within = omega arith;
    least = λ k lt. absurd (omega arith);
    room = omega arith;
  }
  evict_turns-LongestFit (t ∷ ts) = elim (Bool-cases (fits settings (t ∷ ts))) [
    | inl good ↦ rw good (record {
      is_end = refl;
      within = fits→Fits (t ∷ ts) good;
      least = λ k lt. absurd (omega arith);
      room = omega arith;
    })
    | inr over ↦ rw over (LongestFit-cons t ts (fits_not (t ∷ ts) over) (evict_turns-LongestFit ts))
  ]

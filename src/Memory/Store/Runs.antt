-- ===== src/Memory/Store/Runs.antt =====
-- Operations of the store as data, and runs of them: an order of the calls of all tasks.
use enterprise_ai_knowledge.Common.{◌∷◌, ℕ, [], List}
use enterprise_ai_knowledge.Memory.Catalog.{Catalog, Environment, MemorySettings}
use enterprise_ai_knowledge.Memory.Models.{MemoryUpdate, SessionOwnership}
use enterprise_ai_knowledge.Memory.Store.{cleanup_expired, delete, upsert_turn, load}

pub data Operation : Type 0 where
  load_session : SessionOwnership → ℕ → Operation
  upsert : SessionOwnership → MemoryUpdate → ℕ → Operation
  delete_session : SessionOwnership → Operation
  cleanup : ℕ → ℕ → Operation

module _ (settings : MemorySettings) (env : Environment) where
  unfoldable pub step : Operation → Catalog → Catalog
  step (load_session o now) c = (load settings env o now c).1
  step (upsert o u now) c = (upsert_turn settings env o u now c).1
  step (delete_session o) c = (delete o c).1
  step (cleanup maximum now) c = (cleanup_expired maximum now c).1

  unfoldable pub run : List Operation → Catalog → Catalog
  run [] c = c
  run (op ∷ ops) c = run ops (step op c)

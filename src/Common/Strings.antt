-- ===== src/Common/Strings.antt =====
-- Joining texts.
use Prim.Native.String.{String, ◌++◌}
use mathlib.Core.List.{List, [], ◌∷◌}

-- `sep.join(texts)`
unfoldable pub join : String → List String → String
join sep [] = ""
join sep (x ∷ []) = x
join sep (x ∷ y ∷ rest) = x ++ (sep ++ join sep (y ∷ rest))

-- The parts of a formatted string, one behind the other.
unfoldable pub concat : List String → String
concat [] = ""
concat (x ∷ rest) = x ++ concat rest

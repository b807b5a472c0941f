-- ===== src/Common/Assoc.antt =====
-- A Python `dict` in insertion order: writing an existing key keeps its place.
use Prim.Native.Nat.{◌+◌, ◌≤◌, ◌<◌}
use mathlib.Core.Path.{subst}
use mathlib.Core.Logic.{◌≢◌, inl, inr}
use enterprise_ai_knowledge.Common.Tests.{Bool-cases}
use enterprise_ai_knowledge.Common.Lists.{length}
use mathlib.Core.Path.{◌≡◌, refl}
use mathlib.Core.Option.{Option, none, some}
use mathlib.Core.List.{List, [], ◌∷◌}
use native.Mathlib.Omega.{arith}
use enterprise_ai_knowledge.Common.Tests.{if◌then◌else◌}
use enterprise_ai_knowledge.Common.Equality.{Eq, ◌==◌}

abbrev pub Dict {ℓ κ} : Type ℓ → Type κ → Type (ℓ ⊔ κ)
Dict K V = List (K × V)

module _ {ℓ κ} {K : Type ℓ} {V : Type κ} ⦃e : Eq K⦄ where
  -- `d.get(k)`
  abbrev pub lookup : K → Dict K V → Option V
  lookup k [] = none
  lookup k ((j, v) ∷ d) = if j == k then some v else lookup k d

  -- `d[k] = v`
  abbrev pub insert : K → V → Dict K V → Dict K V
  insert k v [] = (k, v) ∷ []
  insert k v ((j, w) ∷ d) = if j == k then (j, v) ∷ d else (j, w) ∷ insert k v d

  -- `d.pop(k, None)`
  abbrev pub remove : K → Dict K V → Dict K V
  remove k [] = []
  remove k ((j, w) ∷ d) = let rest = remove k d in if j == k then rest else (j, w) ∷ rest

  pub lookup-insert :
      (k j : K) (v : V) (d : Dict K V)
      → lookup j (insert k v d) ≡ (if k == j then some v else lookup j d)
  lookup-insert k j v [] = refl
  lookup-insert k j v ((i, w) ∷ d) =
      ground (arith, e.same_iff k j, e.same_iff i k, e.same_iff i j, lookup-insert k j v d)

  pub lookup-remove :
      (k j : K) (d : Dict K V) → lookup j (remove k d) ≡ (if k == j then none else lookup j d)
  lookup-remove k j [] = ground arith
  lookup-remove k j ((i, w) ∷ d) =
      ground (arith, e.same_iff k j, e.same_iff i k, e.same_iff i j, lookup-remove k j d)

  pub lookup-insert_self : (k : K) (v : V) (d : Dict K V) → lookup k (insert k v d) ≡ some v
  lookup-insert_self k v d = ground (arith, lookup-insert k k v d, e.same_iff k k)

  pub length-insert-le : (k : K) (v : V) (d : Dict K V) → length (insert k v d) ≤ length d + 1
  length-insert-le k v [] = omega arith
  length-insert-le k v ((j, w) ∷ d) = ground (arith, length-insert-le k v d)

  pub length-insert_found :
      (k : K) (v : V) (d : Dict K V) → lookup k d ≢ none → length (insert k v d) ≡ length d
  length-insert_found k v [] h = absurd (h refl)
  length-insert_found k v ((j, w) ∷ d) h = ground (arith, length-insert_found k v d)

  pub length-remove-le : (k : K) (d : Dict K V) → length (remove k d) ≤ length d
  length-remove-le k [] = omega arith
  length-remove-le k ((j, w) ∷ d) = ground (arith, length-remove-le k d)

  pub length-remove_found :
      (k : K) (d : Dict K V) → lookup k d ≢ none → length (remove k d) < length d
  length-remove_found k [] h = absurd (h refl)
  length-remove_found k ((j, w) ∷ d) h =
      ground (arith, length-remove-le k d, length-remove_found k d)

  -- Every entry satisfies `P`.
  abbrev pub Entries {μ} : (K → V → Type μ) → Dict K V → Type μ
  Entries P [] = Unit
  Entries P ((k, v) ∷ d) = P k v × Entries P d

  module _ {μ} (P : K → V → Type μ) where
    pub Entries-insert :
        (k : K) (v : V) (d : Dict K V) → P k v → Entries P d → Entries P (insert k v d)
    Entries-insert k v [] p h = (p, tt)
    Entries-insert k v ((j, w) ∷ d) p h = elim (Bool-cases (j == k)) [
      | inl same ↦ rw same (rw ((e.same_iff j k).0 same) p, h.1)
      | inr other ↦ rw other (h.0, Entries-insert k v d p h.1)
    ]

    pub Entries-remove : (k : K) (d : Dict K V) → Entries P d → Entries P (remove k d)
    Entries-remove k [] h = tt
    Entries-remove k ((j, w) ∷ d) h = elim (Bool-cases (j == k)) [
      | inl same ↦ rw same (Entries-remove k d h.1)
      | inr other ↦ rw other (h.0, Entries-remove k d h.1)
    ]

    pub Entries-lookup : (k : K) (d : Dict K V) {v : V} → Entries P d → lookup k d ≡ some v → P k v
    Entries-lookup k [] h found = absurd (ground arith)
    Entries-lookup k ((j, w) ∷ d) {v} h found = elim (Bool-cases (j == k)) [
      | inl same ↦
          let found' : w ≡ v = ground arith in
          subst (P k) found' (rw ((e.same_iff j k).0 same) at h.0)
      | inr other ↦ Entries-lookup k d h.1 (rw other at found)
    ]

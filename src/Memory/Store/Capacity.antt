-- ===== src/Memory/Store/Capacity.antt =====
-- Making room: the expired sessions go, and one more if the catalog is still full.
use enterprise_ai_knowledge.Common.{
  ◌∙◌, true, false, if◌then◌else◌, ap, Bool, subst, ltb, ◌==◌, nat_eq, ◌⊎◌, ◌≤◌, ◌≢◌, ◌≡◌, ◌∷◌, ℕ,
  some, remove, refl, none, lookup, length-remove_found, length-remove-le, length, leb, inr, inl,
  arith, [], Option-cases, List, Entries-remove, Entries, Dict, Bool-cases, ◌<◌,
}
use enterprise_ai_knowledge.Memory.Catalog.{
  expired_keys, ok, Catalog, oldest, oldest_from, remove_all, Session, MemorySettings,
}
use enterprise_ai_knowledge.Memory.Store.{make_capacity}

found-cons :
    (key k : ℕ) (s : Session) (d : Dict ℕ Session)
    → (key ≡ k) ⊎ (lookup key d ≢ none)
    → lookup key ((k, s) ∷ d) ≢ none
found-cons key k s d (inl e) missing = ground arith
found-cons key k s d (inr f) missing = elim (Bool-cases (k == key)) [
  | inl same ↦ ground arith
  | inr other ↦ f (rw other at missing)
]

if-cases :
    {A : Type 0} (b : Bool) (x y : A) → ((if b then x else y) ≡ x) ⊎ ((if b then x else y) ≡ y)
if-cases true x y = inl refl
if-cases false x y = inr refl

found_step :
    (best pick : ℕ × Session) (n k : ℕ) (s : Session) (d : Dict ℕ Session)
    → (pick ≡ (k, s)) ⊎ (pick ≡ best)
    → (n ≡ pick.0) ⊎ (lookup n d ≢ none)
    → (n ≡ best.0) ⊎ (lookup n ((k, s) ∷ d) ≢ none)
found_step best pick n k s d (inl new) (inl e) =
    inr (found-cons n k s d (inl (e ∙ ap (λ (q : ℕ × Session). q.0) new)))
found_step best pick n k s d (inr old) (inl e) = inl (e ∙ ap (λ (q : ℕ × Session). q.0) old)
found_step best pick n k s d c (inr later) = inr (found-cons n k s d (inr later))

oldest_from-found :
    (best : ℕ × Session) (d : Dict ℕ Session)
    → (oldest_from best d ≡ best.0) ⊎ (lookup (oldest_from best d) d ≢ none)
unfolding oldest_from
oldest_from-found best [] = inl refl
oldest_from-found best ((k, s) ∷ d) =
    let younger = ltb s.last_accessed best.1.last_accessed in
    let pick : ℕ × Session = if younger then (k, s) else best in
    found_step best pick (oldest_from pick d) k s d (if-cases younger (k, s) best)
      (oldest_from-found pick d)

oldest-found : (d : Dict ℕ Session) (key : ℕ) → oldest d ≡ some key → lookup key d ≢ none
oldest-found [] key h = absurd (ground arith)
oldest-found ((k, s) ∷ d) key h =
    let same : oldest_from (k, s) d ≡ key = ground arith in
    subst (λ j. lookup j ((k, s) ∷ d) ≢ none) same
      (found-cons (oldest_from (k, s) d) k s d (oldest_from-found (k, s) d))

pub remove_all-Entries :
    (P : ℕ → Session → Type 0) (keys : List ℕ) (d : Dict ℕ Session)
    → Entries P d
    → Entries P (remove_all keys d)
unfolding remove_all
remove_all-Entries P [] d h = h
remove_all-Entries P (k ∷ keys) d h =
    remove_all-Entries P keys (remove k d) (Entries-remove P k d h)

pub length-remove_all-le :
    (keys : List ℕ) (d : Dict ℕ Session) → length (remove_all keys d) ≤ length d
unfolding remove_all
length-remove_all-le [] d = omega arith
length-remove_all-le (k ∷ keys) d =
    omega (arith, length-remove_all-le keys (remove k d), length-remove-le k d)

module _ (settings : MemorySettings) (P : ℕ → Session → Type 0) where
  -- A catalog with room is below the limit on sessions, and keeps what every entry had.
  pub make_capacity-room :
      (now : ℕ) (c c' : Catalog)
      → length c.sessions ≤ settings.max_sessions
      → Entries P c.sessions
      → make_capacity settings now c ≡ ok c'
      → (length c'.sessions < settings.max_sessions) × Entries P c'.sessions
  unfolding make_capacity
  make_capacity-room now c c' bound entries h =
      let left = remove_all (expired_keys 100 now c.sessions) c.sessions in
      let kept = remove_all-Entries P (expired_keys 100 now c.sessions) c.sessions entries in
      let short = length-remove_all-le (expired_keys 100 now c.sessions) c.sessions in
      elim (Bool-cases (leb settings.max_sessions (length left))) [
        | inl full ↦ elim (Option-cases (oldest left)) [
          | inl nothing ↦ absurd (ground arith)
          | inr (key, found) ↦
              let same : c'.sessions ≡ remove key left = ground arith in
              (
                rw same (omega (arith, length-remove_found key left (oldest-found left key found))),
                rw same (Entries-remove P key left kept),
              )
        ]
        | inr room ↦
            let same : c'.sessions ≡ left = ground arith in (rw same (ground arith), rw same kept)
      ]

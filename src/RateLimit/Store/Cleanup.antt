-- ===== src/RateLimit/Store/Cleanup.antt =====
-- What `consume` and its cleanup leave in the store.
use enterprise_ai_knowledge.Common.{
  lookup-insert_self, nat_eq, ◌∙◌, some, remove, not, ltb, lookup-remove, ◌+◌, ◌&&◌, ◌%◌, ◌∷◌, zero,
  suc, refl, none, lookup-insert, inr, inl, false, arith, [], Bool-cases, ◌==◌, ◌≡◌, take, lookup,
  insert, ℕ, Dict, Eq,
}
use enterprise_ai_knowledge.Common.Int.{max_ℤ, excess, ℤ}
use enterprise_ai_knowledge.RateLimit.Store.{
  current_state, err, Outcome, charge, validate_state, finish, ok, Bucket, with_lock, locked_step,
  consume, cleanup, after_access, is_held, BucketStore, is_stale, sweep,
}
use enterprise_ai_knowledge.RateLimit.Models.{
  magnitude, is_positive, finite, StoreEvaluation, Float, RateLimitPolicy, BucketState,
}
use enterprise_ai_knowledge.RateLimit.Store.Charge.{charge-validates, charge-written, Outcome-cases}

-- Python's keys are unique.
module _ {K V : Type 0} ⦃e : Eq K⦄ where
  abbrev pub Unique : Dict K V → Type 0
  Unique [] = Unit
  Unique ((k, v) ∷ d) = (lookup k d ≡ none) × Unique d

  pub insert-Unique : (k : K) (v : V) (d : Dict K V) → Unique d → Unique (insert k v d)
  insert-Unique k v [] h = (refl, tt)
  insert-Unique k v ((j, w) ∷ d) h =
      ground (arith, insert-Unique k v d h.1, lookup-insert k j v d, e.same_iff j k, e.same_iff k j)

module _ {K : Type 0} ⦃e : Eq K⦄ (key : K) (now : ℤ) where
  -- No entry of the snapshot under the key is old.
  abbrev pub Fresh : ℕ → Dict K BucketState → Type 0
  Fresh ttl [] = Unit
  Fresh ttl ((k, st) ∷ d) = ((k ≡ key → is_stale ttl now st.last_seen ≡ false)) × Fresh ttl d

  Fresh-take : (ttl n : ℕ) (d : Dict K BucketState) → Fresh ttl d → Fresh ttl (take n d)
  Fresh-take ttl zero d h = tt
  Fresh-take ttl (suc n) [] h = tt
  Fresh-take ttl (suc n) (x ∷ d) h = (h.0, Fresh-take ttl n d h.1)

  Fresh-absent : (ttl : ℕ) (d : Dict K BucketState) → lookup key d ≡ none → Fresh ttl d
  Fresh-absent ttl [] h = tt
  Fresh-absent ttl ((k, st) ∷ d) h = (
    (λ p. absurd (ground (arith, e.same_iff k key))),
    Fresh-absent ttl d (ground (arith, e.same_iff k key)),
  )

  Fresh-insert :
      (ttl : ℕ) (st : BucketState) (d : Dict K BucketState)
      → is_stale ttl now st.last_seen ≡ false
      → Unique d
      → Fresh ttl (insert key st d)
  Fresh-insert ttl st [] f u = ((λ p. f), tt)
  Fresh-insert ttl st ((k, old) ∷ d) f u = elim (Bool-cases (k == key)) [
    | inl here ↦ rw here ((λ p. f), Fresh-absent ttl d (rw ((e.same_iff k key).0 here) at u.0))
    | inr other ↦
        rw other ((λ p. absurd (ground (arith, e.same_iff k key))), Fresh-insert ttl st d f u.1)
  ]

  sweep-keeps :
      (items : Dict K BucketState) (s : BucketStore K)
      → Fresh s.ttl items
      → lookup key (sweep now items s).1.states ≡ lookup key s.states
  unfolding sweep
  sweep-keeps [] s f = refl
  sweep-keeps ((k, st) ∷ rest) s f =
      elim (Bool-cases (is_stale s.ttl now st.last_seen && not (is_held (lookup k s.locks)))) [
        | inl gone ↦ rw gone (
            sweep-keeps rest (record s { states = remove k s.states; locks = remove k s.locks }) f.1
            ∙ ground (arith, lookup-remove k key s.states, f.0, e.same_iff k key))
        | inr kept ↦ rw kept (sweep-keeps rest s f.1)
      ]

  after_access-keeps :
      (s : BucketStore K)
      → Fresh s.ttl s.states
      → lookup key (after_access now s).states ≡ lookup key s.states
  unfolding after_access cleanup
  after_access-keeps s f = elim (Bool-cases ((s.access_count + 1) % s.cleanup_interval == 0)) [
    | inl due ↦ rw due (
        sweep-keeps (take s.cleanup_scan s.states) (record s { access_count = s.access_count + 1 })
          (Fresh-take s.ttl s.cleanup_scan s.states f))
    | inr early ↦ rw early
  ]

excess-max_self : (ttl : ℕ) (now seen : ℤ) → ltb ttl (excess now (max_ℤ now seen)) ≡ false
excess-max_self ttl now seen = ground arith

module _ {K : Type 0} ⦃e : Eq K⦄ (key : K) (policy : RateLimitPolicy) (now : ℤ) where
  with_lock-states : (s : BucketStore K) → (with_lock key s).states ≡ s.states
  with_lock-states s = ground arith

  charged :
      (cost : ℕ) (s : BucketStore K) {r : StoreEvaluation} {st : BucketState}
      → locked_step key policy cost now s ≡ ok (r, st)
      → (b : Bucket) × (charge policy cost now b ≡ ok (r, st))
  unfolding locked_step
  charged cost s h = elim (Outcome-cases (validate_state (current_state key policy now s) policy)) [
    | inl (error, bad) ↦ absurd (ground arith)
    | inr (b, good) ↦ (b, rw (good, locked_step) at h)
  ]

  -- What the store holds under the key after `finish`.
  abbrev pub Holds : StoreEvaluation → BucketStore K → Type 0
  Holds r s =
      (st : BucketState) × (b : Bucket) × (lookup key s.states ≡ some st)
      × (validate_state st policy ≡ ok b)
      × (b.tokens ≡ r.remaining_tokens)

  finish-Holds :
      (cost : ℕ) (s : BucketStore K) (o : Outcome (StoreEvaluation × BucketState))
      {r : StoreEvaluation}
      → Unique s.states
      → locked_step key policy cost now s ≡ o
      → (finish key now s o).0 ≡ ok r
      → Holds r (finish key now s o).1
  unfolding finish
  finish-Holds cost s (err error) u stepped h = absurd (ground arith)
  finish-Holds cost s (ok (r, st)) u stepped h =
      let (b, done) = charged cost s stepped in
      (
        st,
        record {
          tokens = r.remaining_tokens;
          refilled = max_ℤ now b.refilled;
          seen = max_ℤ now b.seen;
        },
        after_access-keeps key now (record s { states = insert key st s.states })
              (Fresh-insert key now s.ttl st s.states
                (rw (charge-written policy cost now b done) (excess-max_self s.ttl now b.seen)) u)
            ∙ lookup-insert_self key st s.states,
        charge-validates policy cost now b done,
        ground arith,
      )

  -- After a call that returns a result, the cleanup that it may have run included, the store holds
  -- the bucket of the key. The next call under the policy finds it valid, with the remaining
  -- tokens that the result states.
  pub consume-Holds :
      (cost : Float) (s : BucketStore K) {r : StoreEvaluation}
      → Unique s.states
      → (consume key policy cost (finite now) s).0 ≡ ok r
      → Holds r (consume key policy cost (finite now) s).1
  unfolding consume
  consume-Holds cost s u h = elim (Bool-cases (is_positive cost)) [
    | inl positive ↦ rw positive (
        finish-Holds (magnitude cost) (with_lock key s)
          (locked_step key policy (magnitude cost) now (with_lock key s))
          (rw (with_lock-states s) u) refl (rw positive at h))
    | inr bad ↦ absurd (ground arith)
  ]

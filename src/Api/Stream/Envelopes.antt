-- ===== src/Api/Stream/Envelopes.antt =====
-- How the validator takes the backend's envelopes, one at a time.
use enterprise_ai_knowledge.Common.{
  string_eq, nat_eq, ◌⊎◌, ◌≤◌, ◌≢◌, ◌≡◌, ◌∷◌, ℕ, zero, true, suc, some, refl, none, nat_beq_iff,
  nat_beq, inr, inl, false, eq_refl, contains, arith, [], String, Option, List, Bool-cases, ==_iff,
  ◌==◌, ◌+◌,
}
use enterprise_ai_knowledge.Frontend.Contract.{
  GraphOutput, new_validator, PublicError, accept_content, AgentEvent, Validator, accept, Envelope,
  Checked, accept_all, is_terminal, Correlation,
}
use enterprise_ai_knowledge.Api.Stream.{final_type, envelope, is_final}
use enterprise_ai_knowledge.Api.Stream.Consistent.{Announced, OutputOf, EventOf}
use enterprise_ai_knowledge.Frontend.Contract.{finish, ok}

nat_beq_other : (a b : ℕ) → a ≢ b → nat_beq a b ≡ false
nat_beq_other a b differ = elim (Bool-cases (nat_beq a b)) [
  | inl e ↦ absurd (differ ((nat_beq_iff a b).0 e))
  | inr e ↦ e
]

absurd_le : (n m : ℕ) → suc n ≤ m → m ≢ n
absurd_le n m le e = omega arith

le_suc : (n m : ℕ) → suc n ≤ m → n ≤ m
le_suc n m le = omega arith

nat_refl : (n : ℕ) → nat_beq n n ≡ true
nat_refl n = (nat_beq_iff n n).1 refl

final-cases :
    (t : String) → is_final t ≡ true → (t ≡ "response.completed") ⊎ (t ≡ "response.failed")
final-cases t h = elim (Bool-cases (t == "response.completed")) [
  | inl e ↦ inl ((==_iff t "response.completed").0 e)
  | inr e ↦ inr ((==_iff t "response.failed").0 (rw e at h))
]

-- Not final for the backend, and not the transport's own type: not terminal for the frontend.
pub not_terminal : (t : String) → is_final t ≡ false → t ≢ "stream.error" → is_terminal t ≡ false
unfolding is_terminal
not_terminal t h other = elim (Bool-cases (t == "stream.error")) [
  | inl e ↦ absurd (other ((==_iff t "stream.error").0 e))
  | inr e ↦ ground arith
]

pub add_one : (n : ℕ) → n + 1 ≡ suc n
add_one n = omega arith

pub accept_all-step :
    (e : Envelope) (rest : List Envelope) (v w : Validator)
    → accept e v ≡ ok w
    → accept_all (e ∷ rest) v ≡ accept_all rest w
unfolding accept_all
accept_all-step e rest v w h = rw (h, accept_all) refl

module _ (fresh : ℕ → ℕ) (input : Correlation) where
  -- The identifiers of the first n envelopes.
  abbrev pub issued : ℕ → List ℕ
  issued zero = []
  issued (suc n) = fresh n ∷ issued n

  -- The validator behind n envelopes, none of them terminal.
  abbrev pub following : ℕ → Validator
  following n = record {
    expected_sequence = n;
    event_ids = issued n;
    correlation = some input;
    terminal_event = none;
  }

  -- The held back event is of the request, and is final.
  abbrev pub Held : Option AgentEvent → Type 0
  Held none = Unit
  Held (some a) = EventOf input a × (is_final a.event_type ≡ true)

  fresh-issued :
      ((i j : ℕ) → fresh i ≡ fresh j → i ≡ j)
      → (n m : ℕ) → n ≤ m
      → contains (issued n) (fresh m) ≡ false
  fresh-issued injective zero m le = refl
  fresh-issued injective (suc n) m le =
      rw
        (
          nat_beq_other (fresh m) (fresh n) (λ same. absurd_le n m le (injective m n same)),
          fresh-issued injective n m (le_suc n m le),
        )
        refl

  abbrev pub outcome : Envelope → ℕ → Checked Validator
  outcome e n = accept e (following n)

  -- The sequence number and the new identifier pass the first tests.
  pub accept-in_order :
      ((i j : ℕ) → fresh i ≡ fresh j → i ≡ j)
      → (n : ℕ) (event_type : String) (a : Option AgentEvent) (r : Option GraphOutput)
      → (e : Option PublicError)
      → outcome (envelope fresh input n event_type a r e) n
        ≡ accept_content (envelope fresh input n event_type a r e) (following n)
  unfolding accept envelope
  accept-in_order injective n event_type a r e =
      rw (nat_refl n, fresh-issued injective n n (omega arith)) refl

  -- A further envelope of an agent event is accepted.
  pub accept_activity :
      (n : ℕ) (a : AgentEvent)
      → EventOf input a
      → is_terminal a.event_type ≡ false
      → accept_content (envelope fresh input n a.event_type (some a) none none) (following n)
        ≡ ok (following (suc n))
  unfolding accept_content envelope
  accept_activity n a of not_final =
      rw
        (
          add_one n,
          not_final,
          of.0,
          of.1,
          of.2,
          eq_refl a.event_type,
          nat_refl input.request_id,
          nat_refl input.trace_id,
          nat_refl input.session_id,
        )
        refl

  abbrev pub Ended : Checked Validator → Type 0
  Ended result = (v : Validator) × (result ≡ ok v) × (finish v ≡ ok tt)

  pub accept_output :
      (n : ℕ) (terminal : Option AgentEvent) (r : GraphOutput)
      → Held terminal
      → OutputOf input r
      → Announced terminal r
      → Ended (
          accept_content
            (envelope fresh input n (final_type terminal) terminal (some r) none)
            (following n))
  unfolding accept_content envelope is_terminal
  accept_output n none r held of announced =
      rw
        (
          of.0,
          of.1,
          of.2,
          nat_refl input.request_id,
          nat_refl input.trace_id,
          nat_refl input.session_id,
        )
        (_, refl, refl)
  accept_output n (some a) r held of announced = elim (final-cases a.event_type held.1) [
    | inl e ↦
        rw
          (
            e,
            of.0,
            of.1,
            of.2,
            held.0.0,
            held.0.1,
            held.0.2,
            nat_refl input.request_id,
            nat_refl input.trace_id,
            nat_refl input.session_id,
          )
          (_, refl, refl)
    | inr e ↦
        rw
          (
            e,
            of.0,
            of.1,
            of.2,
            held.0.0,
            held.0.1,
            held.0.2,
            (announced e).0,
            (announced e).1,
            nat_refl input.request_id,
            nat_refl input.trace_id,
            nat_refl input.session_id,
          )
          (_, refl, refl)
  ]

  pub accept_error :
      (n : ℕ) (e : PublicError)
      → Ended
          (accept_content (envelope fresh input n "stream.error" none none (some e)) (following n))
  unfolding accept_content envelope is_terminal
  accept_error n e =
      rw (nat_refl input.request_id, nat_refl input.trace_id, nat_refl input.session_id)
        (_, refl, refl)

  pub accept_started :
      accept (envelope fresh input 0 "stream.started" none none none) new_validator
      ≡ ok (following 1)
  unfolding accept accept_content envelope is_terminal
  accept_started = refl

-- ===== src/Api/Stream/Accepted.antt =====
-- What the backend streams is what the frontend's validator demands.
use enterprise_ai_knowledge.Common.{
  ◌≡◌, ◌∷◌, ◌∙◌, ℕ, true, suc, some, refl, none, inr, inl, false, arith, [], Option-cases, Option,
  List, Bool-cases, Bool,
}
use enterprise_ai_knowledge.Frontend.Contract.{
  new_validator, accept, PublicError, Envelope, Validator, GraphOutput, Checked, AgentEvent,
  accept_all, Correlation,
}
use enterprise_ai_knowledge.Api.Stream.{
  is_final, ready, timeout, final_type, envelope, message, Arrival, envelopes, chat_event_stream,
  Frame, stream,
}
use enterprise_ai_knowledge.Api.Stream.Consistent.{Announced, stayed, OutputOf, Consistent}
use enterprise_ai_knowledge.Frontend.Contract.{finish, ok}
use enterprise_ai_knowledge.Api.Stream.Envelopes.{
  add_one, not_terminal, accept_activity, accept_output, accept_error, accept_started,
  accept_all-step, accept-in_order, Ended, Held, following,
}

module _ (fresh : ℕ → ℕ) (input : Correlation) where
  -- What the validator makes of the envelopes behind the first n.
  abbrev read : ℕ → List Frame → Checked Validator
  read n frames = accept_all (envelopes frames) (following fresh input n)

  -- Accepted; and the stream is finished, unless the client left.
  abbrev pub Fulfilled : Bool → Checked Validator → Type 0
  Fulfilled kept result = (v : Validator) × (result ≡ ok v) × (kept ≡ true → finish v ≡ ok tt)

  -- One envelope that ends the stream.
  Ended-Fulfilled :
      (kept : Bool) (n : ℕ) (e : Envelope)
      → Ended fresh input (accept e (following fresh input n))
      → Fulfilled kept (read n (message e ∷ []))
  unfolding accept_all envelopes
  Ended-Fulfilled kept n e (v, accepted, final) =
      (v, accept_all-step e [] (following fresh input n) v accepted, λ k. final)

  module _ (injective : (i j : ℕ) → fresh i ≡ fresh j → i ≡ j) where
    -- The envelope with the output ends the stream.
    answer-Fulfilled :
        (kept : Bool) (n : ℕ) (terminal : Option AgentEvent) (r : GraphOutput)
        → Held fresh input terminal
        → OutputOf input r × Announced terminal r
        → Fulfilled kept (
            read n
              (message (envelope fresh input n (final_type terminal) terminal (some r) none) ∷ []))
    answer-Fulfilled kept n terminal r held (of, announced) =
        Ended-Fulfilled kept n (envelope fresh input n (final_type terminal) terminal (some r) none)
          (rw (accept-in_order fresh input injective n (final_type terminal) terminal (some r) none)
            (accept_output fresh input n terminal r held of announced))

    stream-Fulfilled :
        (n : ℕ) (terminal : Option AgentEvent) (arrivals : List Arrival) (ending : PublicError)
        → Held fresh input terminal
        → Consistent input terminal arrivals
        → Fulfilled (stayed arrivals) (read n (stream fresh input n terminal arrivals ending))
    unfolding stream accept_all envelopes Consistent
    stream-Fulfilled n terminal [] ending held fits =
        Ended-Fulfilled true n (envelope fresh input n "stream.error" none none (some ending)) (
          rw (accept-in_order fresh input injective n "stream.error" none none (some ending))
            (accept_error fresh input n ending))
    stream-Fulfilled n terminal (timeout true ∷ rest) ending held fits =
        (following fresh input n, refl, λ k. ground arith)
    stream-Fulfilled n terminal (timeout false ∷ rest) ending held fits =
        stream-Fulfilled n terminal rest ending held fits
    stream-Fulfilled n terminal (ready item ∷ rest) ending held fits =
        elim (Option-cases item.event) [
          | inl silent ↦ elim (Option-cases item.output) [
            | inl empty ↦
                rw (silent, empty)
                  (stream-Fulfilled n terminal rest ending held (rw (silent, empty) at fits))
            | inr (r, output) ↦
                rw (silent, output)
                  (answer-Fulfilled (stayed rest) n terminal r held (rw (silent, output) at fits))
          ]
          | inr (a, emitted) ↦ elim (Bool-cases (is_final a.event_type)) [
            | inl final ↦
                let seen = rw (emitted, final) at fits in
                rw (emitted, final) (stream-Fulfilled n (some a) rest ending (seen.0, final) seen.2)
            | inr more ↦
                let seen = rw (emitted, more) at fits in
                let accepted =
                  accept-in_order fresh input injective n a.event_type (some a) none none
                  ∙ accept_activity fresh input n a seen.0
                      (not_terminal a.event_type more seen.1) in
                rw
                  (
                    emitted,
                    more,
                    add_one n,
                    accept_all-step (envelope fresh input n a.event_type (some a) none none)
                        (envelopes (stream fresh input (suc n) terminal rest ending))
                        (following fresh input n) (following fresh input (suc n)) accepted,
                  )
                  (stream-Fulfilled (suc n) terminal rest ending held seen.2)
          ]
        ]

    -- Where no two envelopes have one identifier, and the graph's items are consistent with the
    -- request, the frontend accepts every envelope that the backend streams, and unless the client
    -- left, it has a final event at the end.
    pub chat_event_stream-Fulfilled :
        (arrivals : List Arrival) (ending : PublicError)
        → Consistent input none arrivals
        → Fulfilled
            (stayed arrivals)
            (accept_all (envelopes (chat_event_stream fresh input arrivals ending)) new_validator)
    unfolding chat_event_stream envelopes
    chat_event_stream-Fulfilled arrivals ending fits =
        rw
          (accept_all-step (envelope fresh input 0 "stream.started" none none none)
            (envelopes (stream fresh input 1 none arrivals ending)) new_validator
            (following fresh input 1) (accept_started fresh input))
          (stream-Fulfilled 1 none arrivals ending tt fits)

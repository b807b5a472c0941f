-- ===== src/Graph/Runtime/Served.antt =====
-- From the graph to the client: what a request of a session gets.
use enterprise_ai_knowledge.Common.{
  All, ◌∙◌, length, false, Text, ==_iff, string_eq, ◌≢◌, ◌≡◌, ◌∷◌, ℕ, true, suc, subst, some, refl,
  none, map, inr, inl, if◌then◌else◌, contains, arith, [], String, Option-cases, Option, List,
  Bool-cases, ◌-◌, ◌++◌,
}
use enterprise_ai_knowledge.Vocabulary.{Route, ProcessingStatus}
use enterprise_ai_knowledge.Api.Stream.{
  chat_event_stream, envelopes, is_final, ready, timeout, StreamItem, Arrival,
}
use enterprise_ai_knowledge.Frontend.Contract.{
  new_validator, accept_all, PublicError, AgentEvent, Correlation,
}
use enterprise_ai_knowledge.Api.Stream.Consistent.{stayed, OutputOf, Consistent}
use enterprise_ai_knowledge.Graph.Reducers.{Content, append_unique, append_events, event_types}
use enterprise_ai_knowledge.Graph.Runtime.{
  fresh_state, checkpoint, astream, correlation, public_output, GraphInput, initial_state,
}
use enterprise_ai_knowledge.Graph.Nodes.Closing.{is_failed_status, final_event}
use enterprise_ai_knowledge.Graph.State.{
  is_valid_response, GroundedResponse, AnalysisResult, GraphState, FinalOutput,
}
use enterprise_ai_knowledge.Graph.Runtime.Streamed.{ids}
use enterprise_ai_knowledge.Graph.Nodes.Tame.{is_sound}
use enterprise_ai_knowledge.Graph.Runtime.Items.{
  final_event-known, final_event-final, both, output_item, told, item_of,
}
use enterprise_ai_knowledge.Graph.Nodes.Quiet.{Quiet}
use enterprise_ai_knowledge.Graph.History.{drop_nil}
use enterprise_ai_knowledge.Graph.Services.{Services}
use enterprise_ai_knowledge.Identity.{Principal}
use enterprise_ai_knowledge.Graph.Runtime.Answered.{Answer, execute-Answer}
use enterprise_ai_knowledge.Graph.Execution.{execute}
use enterprise_ai_knowledge.Api.Stream.Accepted.{chat_event_stream-Fulfilled, Fulfilled}

initial_state-empty :
    (m : ℕ) (input : GraphInput) (s : GraphState) → (initial_state m input s).activity_events ≡ []
unfolding initial_state append_events append_unique
initial_state-empty m input s = drop_nil (0 - 200)

initial_state-is_sound :
    (m : ℕ) (input : GraphInput) (s : GraphState)
    → is_sound s ≡ true
    → is_sound (initial_state m input s) ≡ true
unfolding initial_state
initial_state-is_sound m input s h = h

initial_state-ids :
    (m : ℕ) (input : GraphInput) (s : GraphState)
    → ids (initial_state m input s) ≡ correlation input
unfolding initial_state
initial_state-ids m input s = refl

-- The items that a loop over the arrivals is given.
abbrev pub received : List Arrival → List StreamItem
received [] = []
received (timeout gone ∷ rest) = received rest
received (ready item ∷ rest) = item ∷ received rest

-- Items that are consistent are so however the pings fall between them, and wherever they stop.
received-Consistent :
    (c : Correlation) (terminal : Option AgentEvent) (arrivals : List Arrival)
    (lost : List StreamItem)
    → Consistent c terminal (map ready (received arrivals ++ lost))
    → Consistent c terminal arrivals
unfolding Consistent
received-Consistent c terminal [] lost h = tt
received-Consistent c terminal (timeout gone ∷ rest) lost h =
    received-Consistent c terminal rest lost h
received-Consistent c terminal (ready item ∷ rest) lost h = elim (Option-cases item.event) [
  | inl silent ↦ elim (Option-cases item.output) [
    | inl empty ↦
        rw (silent, empty, Consistent)
          (received-Consistent c terminal rest lost (rw (silent, empty, Consistent) at h))
    | inr (r, output) ↦ rw (silent, output, Consistent) (rw (silent, output, Consistent) at h)
  ]
  | inr (a, emitted) ↦
      let seen = rw (emitted, Consistent) at h in
      rw (emitted, Consistent)
        (
          seen.0,
          seen.1,
          received-Consistent c (if is_final a.event_type then some a else terminal) rest lost
              seen.2,
        )
]

known_type : (t : String) → contains event_types t ≡ true → t ≢ "stream.error"
known_type t known e =
    let bad : contains event_types "stream.error" ≡ true =
      subst (λ u. contains event_types u ≡ true) e known in
    absurd (ground (arith, bad))

status_failed : (s : ProcessingStatus) → is_failed_status s ≡ true → s ≡ ProcessingStatus.failed
status_failed s h = ground arith

differing : ◌≡◌ {A = String} "response.completed" "response.failed" → false ≡ true
differing e = (==_iff "response.completed" "response.failed").1 e

announced :
    (status : ProcessingStatus)
    → (final_event status).event_type ≡ "response.failed"
    → is_failed_status status ≡ true
announced status h = elim (Bool-cases (is_failed_status status)) [
  | inl e ↦ e
  | inr e ↦ let wrong = rw e at h in absurd (ground (arith, differing wrong))
]

module _ (c : Correlation) (o : FinalOutput) (mine : OutputOf c (public_output o))
    (failing : is_failed_status o.completion_status ≡ true → o.selected_route ≡ Route.failure) where
  last-Consistent :
      (n : ℕ)
      → Consistent c none (
          map ready
            (map item_of (told c n (final_event o.completion_status ∷ [])) ++ output_item o ∷ []))
  unfolding Consistent
  last-Consistent n =
      let status = o.completion_status in
      rw (final_event-final status) (
        (refl, refl, refl),
        known_type _ (final_event-known status),
        (mine, λ h. let fails = announced status h in (status_failed status fails, failing fails)),
      )

  items-Consistent :
      (contents : List Content) (n k : ℕ)
      → Quiet contents
      → Consistent c none (
          map ready (
            map item_of (told c n contents)
            ++ (map item_of (told c k (final_event o.completion_status ∷ []))
                ++ output_item o ∷ [])))
  unfolding Consistent
  items-Consistent [] n k quiet = last-Consistent k
  items-Consistent (x ∷ contents) n k (h, quiet) =
      let (known, more) = both (contains event_types x.event_type) (is_final x.event_type) h in
      rw more (
        (refl, refl, refl),
        known_type x.event_type known,
        items-Consistent contents (suc n) k quiet,
      )

-- The service that writes the response of an analysis gives valid responses.
abbrev pub Writes : Services → Type 0
Writes v =
    (query : Text) (a : AnalysisResult) (r : GroundedResponse)
    → v.analysis_response query a ≡ some r
    → is_valid_response r ≡ true

module _ (max_characters : ℕ) where
  -- A session whose checkpoint has sound flags keeps them through any requests.
  checkpoint-is_sound :
      (inputs : List (Services × GraphInput)) (s : GraphState)
      → All (λ (r : Services × GraphInput). Writes r.0) inputs
      → is_sound s ≡ true
      → is_sound (checkpoint max_characters inputs s) ≡ true
  unfolding checkpoint
  checkpoint-is_sound [] s valids h = h
  checkpoint-is_sound ((v, input) ∷ rest) s (valid, valids) h =
      let answer =
        execute-Answer v valid (correlation input) (initial_state max_characters input s)
          (initial_state-ids max_characters input s)
          (initial_state-is_sound max_characters input s h)
          (initial_state-empty max_characters input s) in
      checkpoint-is_sound rest (execute v (initial_state max_characters input s)).state valids
        answer.2.4

  -- Where the service that writes an analysis's response always gives valid ones, every request of
  -- a session, whatever requests came before it, and however the services fail or change from request
  -- to request, raises nothing, ends with an output of its own identifiers, and streams its events
  -- numbered from zero without a gap, then the final event, then the output, which has failed only by
  -- the failure's route; no event that a node wrote is left out.
  pub checkpoint-Answer :
      (inputs : List (Services × GraphInput)) (principal : Principal) (v : Services)
      (input : GraphInput)
      → All (λ (r : Services × GraphInput). Writes r.0) inputs
      → Writes v
      → Answer (correlation input) (
          execute v (
            initial_state max_characters input
              (checkpoint max_characters inputs (fresh_state principal))))
  checkpoint-Answer inputs principal v input valids valid =
      let s = checkpoint max_characters inputs (fresh_state principal) in
      execute-Answer v valid (correlation input) (initial_state max_characters input s)
        (initial_state-ids max_characters input s)
        (initial_state-is_sound max_characters input s
          (checkpoint-is_sound inputs (fresh_state principal) valids refl))
        (initial_state-empty max_characters input s)

  -- Where the responses to an analysis are valid and no two envelopes have one identifier, the
  -- frontend accepts every envelope that the backend streams of a request, however many requests the
  -- session had before, however the services change between them, however the pings fall between the
  -- items and wherever the iterator stops; unless the client left, it has a final event at the end.
  pub astream-Fulfilled :
      (fresh : ℕ → ℕ) (injective : (i j : ℕ) → fresh i ≡ fresh j → i ≡ j)
      (inputs : List (Services × GraphInput)) (principal : Principal) (v : Services)
      (input : GraphInput) (arrivals : List Arrival) (lost : List StreamItem) (ending : PublicError)
      → All (λ (r : Services × GraphInput). Writes r.0) inputs
      → Writes v
      → received arrivals ++ lost
        ≡ astream v max_characters input (checkpoint max_characters inputs (fresh_state principal))
      → Fulfilled fresh (correlation input) (stayed arrivals) (
          accept_all
            (envelopes (chat_event_stream fresh (correlation input) arrivals ending))
            new_validator)
  unfolding astream
  astream-Fulfilled fresh injective inputs principal v input arrivals lost ending valids valid
        given =
      let c = correlation input in
      let (contents, o, (on, kept, mine, failing, sound, quiet, streamed, all)) =
        checkpoint-Answer inputs principal v input valids valid in
      chat_event_stream-Fulfilled fresh c injective arrivals ending (
        received-Consistent c none arrivals lost (
          rw (given ∙ streamed)
            (items-Consistent c o mine failing contents 0 (length contents) quiet)))

-- ===== src/Memory/Context.antt =====
-- backend/src/enterprise_ai/memory/context.py: the context of a session's turns, and the
-- resolution of follow-up questions. Regular expressions, case folding and the detection of
-- instructions in text are library code or other components, and enter as `TextTools`.
use mathlib.Core.Option
use enterprise_ai_knowledge.Common.{
  join, flat_map, concat, nat_eq, string_eq, ◌∷◌, ℕ, ◌||◌, true, take, some, not, none, map, length,
  leb, last_slice, keep_if, is_empty, false, if◌then◌else◌, drop, contains, any_of, [], String,
  Option, List, Eq, Bool, ◌==◌, ◌++◌, ◌&&◌,
}
use enterprise_ai_knowledge.Memory.Models.{MemoryEvidenceReference, MemoryContext, ConversationTurn}
use enterprise_ai_knowledge.Vocabulary.{document_type_eq}

pub record TextTools : Type 0 where
  -- `_INCIDENT.findall`
  pub incidents : String → List String
  -- `_FOLLOWUP.search`, as a test
  pub is_followup : String → Bool
  -- `bool(extract_enterprise_identifiers(text))`
  pub has_identifiers : String → Bool
  -- `contains_untrusted_instruction`
  pub is_untrusted : String → Bool
  -- `str.casefold`
  pub casefold : String → String
  -- `a in b` on texts
  pub occurs_in : String → String → Bool
  -- `text[:n]`
  pub prefix : ℕ → String → String

module _ {A : Type 0} ⦃e : Eq A⦄ where
  -- The loop of `_unique`, on the result so far.
  unfoldable pub unique_from : List A → List A → List A
  unique_from result [] = result
  unique_from result (value ∷ rest) =
      unique_from (if contains result value then result else result ++ value ∷ []) rest

  -- `_unique`
  unfoldable pub unique : List A → ℕ → List A
  unique values maximum = last_slice maximum (unique_from [] values)

abbrev services : List String
services = "HorizonPay Gateway" ∷ "LedgerBridge" ∷ "CardAuth Hub" ∷ "OpsPulse" ∷ []

-- `turns[-1]`
abbrev last_turn : List ConversationTurn → Option ConversationTurn
last_turn [] = none
last_turn (t ∷ []) = some t
last_turn (t ∷ u ∷ rest) = last_turn (u ∷ rest)

unfoldable pub references_of : List ConversationTurn → List MemoryEvidenceReference
references_of = flat_map (λ (t : ConversationTurn). t.update.evidence_references)

module _ (tools : TextTools) where
  unfoldable pub build_context : List ConversationTurn → ℕ → ℕ → MemoryContext
  build_context turns maximum_topics maximum_identifiers =
      let references = references_of turns in
      let messages = join " " (map (λ (t : ConversationTurn). t.update.user_message) turns) in
      record {
        last_user_question = Option.map (λ t. t.update.user_message) (last_turn turns);
        last_intent = Option.map (λ t. t.update.intent) (last_turn turns);
        last_route = Option.map (λ t. t.update.selected_route) (last_turn turns);
        recent_document_titles = unique (map (λ r. r.title) references) maximum_topics;
        recent_document_ids = unique (map (λ r. r.document_id) references) maximum_topics;
        recent_incident_ids = unique (tools.incidents messages) maximum_identifiers;
        recent_service_names =
            unique
              (keep_if (λ s. tools.occurs_in (tools.casefold s) (tools.casefold messages)) services)
              maximum_topics;
        recent_departments = unique (map (λ r. r.department) references) maximum_topics;
        recent_document_types = unique (map (λ r. r.document_type) references) maximum_topics;
        recent_evidence_ids = unique (map (λ r. r.evidence_id) references) maximum_identifiers;
        recent_warnings =
            unique (flat_map (λ (t : ConversationTurn). t.update.warnings) turns) maximum_topics;
        turn_count = length turns;
      }

  -- The titles, incidents or services that lines 69 to 83 append to the query.
  unfoldable pub additions : String → MemoryContext → List String
  additions lowered context =
      let titles = context.recent_document_titles in
      let runbooks = keep_if (λ t. tools.occurs_in "runbook" (tools.casefold t)) titles in
      if tools.occurs_in "second" lowered && leb 2 (length titles)
      then take 1 (drop 1 titles)
      else if tools.occurs_in "first" lowered && not (is_empty titles)
      then take 1 titles
      else if tools.occurs_in "runbook" lowered
      then (if length runbooks == 1 then runbooks else [])
      else if tools.occurs_in "incident" lowered && not (is_empty context.recent_incident_ids)
      then context.recent_incident_ids
      else if tools.occurs_in "same service" lowered && not (is_empty context.recent_service_names)
      then context.recent_service_names
      else []

  -- A prior question that is not empty, is asked about again, and instructs nothing.
  abbrev repeats : String → Option String → Bool
  repeats lowered none = false
  repeats lowered (some question) =
      not (question == "")
      && any_of (λ term. tools.occurs_in term lowered) ("that" ∷ "previous" ∷ "again" ∷ [])
      && not (tools.is_untrusted question)

  abbrev text_of : Option String → String
  text_of none = ""
  text_of (some s) = s

  -- `resolve_followup`: the resolved query, whether a reference was detected, whether it was used.
  unfoldable pub resolve_followup : String → MemoryContext → ℕ → String × Bool × Bool
  resolve_followup query context maximum =
      let detected = tools.is_followup query in
      let lowered = tools.casefold query in
      let found = additions lowered context in
      if tools.has_identifiers query
      then (query, detected, false)
      else if not detected || context.turn_count == 0
      then (query, detected, false)
      else if repeats lowered context.last_user_question
      then (
        tools.prefix maximum (
            concat (
              "Explain again, in simpler terms, the answer to this prior user question: "
              ∷ text_of context.last_user_question
              ∷ [])),
        true,
        true,
      )
      else if is_empty found
      then (query, true, false)
      else (
        tools.prefix maximum (concat (query ∷ " Context references: " ∷ join "; " found ∷ [])),
        true,
        true,
      )

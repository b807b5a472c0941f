-- ===== src/Graph/Routing.antt =====
-- backend/src/enterprise_ai/graph/routing.py: `requests_inaccessible_access`, `classify` and
-- `supervise`. A text is the list of its code points. The text functions that rest on regular
-- expressions are parameters: `casefold`, the search for a whole word, the greeting's pattern on the
-- stripped text, `security_denial_category`, `extract_enterprise_identifiers`, and
-- `has_explicit_aggregate_intent`.
use enterprise_ai_knowledge.Common.{
  codes, Text, nat_eq, ◌∷◌, ℕ, ◌||◌, true, some, not, none, ltb, length, keep_if, false,
  if◌then◌else◌, contains, any_of, [], Option, List, Bool, ◌==◌, ◌&&◌,
}
use enterprise_ai_knowledge.Identity.{
  role_eq, level_eq, UserRole, ToolPermission, Principal, AccessLevel,
}
use enterprise_ai_knowledge.Vocabulary.{Route, Intent}
use enterprise_ai_knowledge.Security.Authorization.{has_permission, allowed_access_levels}

pub record TextRules : Type 0 where
  pub casefold : Text → Text
  pub names_word : Text → Text → Bool
  pub is_greeting : Text → Bool
  pub security_denial_category : Text → Option ℕ
  pub extract_enterprise_identifiers : Text → List Text
  pub has_explicit_aggregate_intent : Text → Bool

-- The members of `AccessLevel`, in order.
abbrev pub all_levels : List AccessLevel
all_levels =
    AccessLevel.public ∷ AccessLevel.internal ∷ AccessLevel.confidential ∷ AccessLevel.restricted
    ∷ []

-- `level.value`
abbrev pub level_value : AccessLevel → Text
level_value AccessLevel.public = codes "public"
level_value AccessLevel.internal = codes "internal"
level_value AccessLevel.confidential = codes "confidential"
level_value AccessLevel.restricted = codes "restricted"

-- `requested - authorization.allowed_access_levels(principal)` holds a level.
unfoldable pub requests_inaccessible_access : TextRules → Text → Principal → Bool
requests_inaccessible_access rules text principal =
    any_of (λ level. not (contains (allowed_access_levels principal) level))
      (keep_if (λ level. rules.names_word (level_value level) (rules.casefold text)) all_levels)

-- `value.startswith(term)`
unfoldable pub starts_with : Text → Text → Bool
starts_with [] value = true
starts_with (c ∷ cs) [] = false
starts_with (c ∷ cs) (d ∷ ds) = (c == d) && starts_with cs ds

-- `term in value`
unfoldable pub is_in : Text → Text → Bool
is_in term [] = starts_with term []
is_in term (c ∷ cs) = starts_with term (c ∷ cs) || is_in term cs

-- `any(term in value for term in terms)`
abbrev pub any_term : List Text → Text → Bool
any_term terms value = any_of (λ term. is_in term value) terms

abbrev pub research_terms : List Text
research_terms =
    codes "all incidents"
    ∷ codes "compare"
    ∷ codes "recurring root causes"
    ∷ codes "across departments"
    ∷ codes "summarize reports"
    ∷ codes "last year"
    ∷ []

abbrev pub directory_terms : List Text
directory_terms = codes "employee directory" ∷ codes "service owner" ∷ codes "employee lookup" ∷ []

abbrev pub service_terms : List Text
service_terms =
    codes "who owns the "
    ∷ codes "owning team"
    ∷ codes "service tier"
    ∷ codes "service criticality"
    ∷ codes "support hours"
    ∷ codes "p95 latency"
    ∷ codes "availability"
    ∷ codes "error rate"
    ∷ codes "request count"
    ∷ codes "planned change"
    ∷ codes "change window"
    ∷ codes "release window"
    ∷ []

abbrev pub administrative_terms : List Text
administrative_terms =
    codes "delete index" ∷ codes "admin operation" ∷ codes "reindex namespace" ∷ []

abbrev pub unsupported_terms : List Text
unsupported_terms =
    codes "generate a video" ∷ codes "create an animation" ∷ codes "compose a song" ∷ []

-- The second component of `classify`.
pub data Complexity : Type 0 where
  security_rejected identifier_scoped_aggregate_unavailable exact_lookup simple : Complexity
  tool_required cross_document : Complexity

-- Lines 43 to 83: the terms, on a text without an identifier and a denial.
unfoldable pub classify_terms : TextRules → Text → Intent × Complexity
classify_terms rules text =
    let value = rules.casefold text in
    if rules.is_greeting text || is_in (codes "what can you do") value
    then (Intent.conversational, Complexity.simple)
    else if rules.has_explicit_aggregate_intent text
    then (Intent.structured_analysis, Complexity.tool_required)
    else if any_term research_terms value
    then (Intent.cross_document_research, Complexity.cross_document)
    else if any_term directory_terms value
    then (Intent.enterprise_tool_lookup, Complexity.tool_required)
    else if any_term service_terms value
    then (Intent.enterprise_tool_lookup, Complexity.tool_required)
    else if any_term administrative_terms value
    then (Intent.administrative, Complexity.tool_required)
    else if any_term unsupported_terms value
    then (Intent.unsupported, Complexity.simple)
    else (Intent.knowledge_lookup, Complexity.simple)

-- `classify`
unfoldable pub classify : TextRules → Text → Intent × Complexity
classify rules text = elim (rules.security_denial_category text) [
  | some category ↦ (Intent.security_denial, Complexity.security_rejected)
  | none ↦ elim (rules.extract_enterprise_identifiers text) [
    | [] ↦ classify_terms rules text
    | ◌∷◌ first rest ↦
        if ltb 1 (length (first ∷ rest)) && rules.has_explicit_aggregate_intent text
        then (Intent.unsupported, Complexity.identifier_scoped_aggregate_unavailable)
        else (Intent.knowledge_lookup, Complexity.exact_lookup)
  ]
]

-- The permission's route, or the denial.
abbrev pub permitted : Principal → ToolPermission → Route → Route
permitted principal permission route =
    if has_permission principal (some permission) then route else Route.deny

-- `supervise`
unfoldable pub supervise : Intent → Principal → Route
supervise Intent.security_denial principal = Route.deny
supervise Intent.conversational principal = Route.direct_response
supervise Intent.knowledge_lookup principal =
    permitted principal ToolPermission.knowledge_search Route.simple_retrieval
supervise Intent.cross_document_research principal = Route.recursive_research
supervise Intent.structured_analysis principal =
    permitted principal ToolPermission.python_analysis Route.python_analysis
supervise Intent.enterprise_tool_lookup principal =
    permitted principal ToolPermission.mcp_tools Route.mcp_tool
supervise Intent.administrative principal =
    if principal.identity.role == UserRole.administrator then Route.unsupported else Route.deny
supervise Intent.unsupported principal = Route.unsupported

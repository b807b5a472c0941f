-- ===== src/Graph/Nodes/Response.antt =====
-- graph/nodes.py: the nodes that answer, `direct_response`, `deny_request`, `unsupported`,
-- `python_analysis`, `execute_mcp_tool`, `generate_response` and `validate_response_citations`.
use enterprise_ai_knowledge.Graph.Services.{
  node_events, content, Services, Body, ToolCall, executed,
}
use enterprise_ai_knowledge.Common.{
  nat_eq, ◌∷◌, ℕ, ◌||◌, true, some, not, none, false, if◌then◌else◌, [], Text, Option, Bool, ◌==◌,
  ◌+◌,
}
use enterprise_ai_knowledge.Graph.State.{
  ErrorCode, no_update, Update, GroundedResponse, FallbackReason, GraphState,
}
use enterprise_ai_knowledge.Vocabulary.{ProcessingStatus}
use enterprise_ai_knowledge.Graph.Topology.{Node}
use enterprise_ai_knowledge.Graph.Reducers.{EventStatus}

unfoldable pub direct_response : Body
direct_response = (
  node_events Node.direct_response,
  some (record no_update {
    response_text =
        some
          "Hello. I can route authorized enterprise knowledge lookups; generative answers are not implemented.";
    visited_nodes = some (Node.direct_response ∷ []);
  }),
)

unfoldable pub deny_request : GraphState → Body
deny_request s = (
  node_events Node.deny_request,
  some (record no_update {
    processing_status = some ProcessingStatus.denied;
    response_text = some (elim s.security_denial_category [
      | none ↦ "Your role does not permit this operation."
      | some category ↦
          "Secrets, credentials, private configuration, and protected instructions cannot be disclosed."
    ]);
    retrieved_evidence = some [];
    visited_nodes = some (Node.deny_request ∷ []);
  }),
)

unfoldable pub unsupported : Body
unsupported = (
  node_events Node.unsupported,
  some (record no_update {
    response_text = some "This capability is explicitly not implemented in the baseline graph.";
    warnings = some ("Requested capability is unavailable." ∷ []);
    visited_nodes = some (Node.unsupported ∷ []);
  }),
)

unfoldable pub python_analysis : Services → GraphState → Body
python_analysis services s =
    let started = content Node.python_analysis "tool.authorization_started" EventStatus.started in
    let authorized = content Node.python_analysis "tool.authorized" EventStatus.completed in
    let running = content Node.python_analysis "tool.started" EventStatus.started in
    elim (services.may_analyse s.principal) [
      | false ↦ (started ∷ [], none)
      | true ↦ elim s.resolved_query [
        | none ↦ (started ∷ authorized ∷ running ∷ [], none)
        | some query ↦ elim (services.analyse s.principal query) [
          | none ↦ (started ∷ authorized ∷ running ∷ [], none)
          | some result ↦ (
            started
                ∷ authorized
                ∷ running
                ∷ content Node.python_analysis "tool.completed" EventStatus.completed
                ∷ [],
            some (record no_update {
              analysis_result = some result;
              response_text = some result.summary;
              visited_nodes = some (Node.python_analysis ∷ []);
            }),
          )
        ]
      ]
    ]

-- The part of `execute_mcp_tool` behind the selection of a tool.
unfoldable pub call_tool : Services → GraphState → ℕ → Body
call_tool services s selection =
    let started = content Node.execute_mcp_tool "mcp.started" EventStatus.started in
    let selected = content Node.execute_mcp_tool "mcp.tool_selected" EventStatus.completed in
    elim (services.execute_tool s.principal selection) [
      | ToolCall.denied ↦ (
        started ∷ selected ∷ content Node.execute_mcp_tool "mcp.denied" EventStatus.denied ∷ [],
        some (record no_update {
          processing_status = some ProcessingStatus.denied;
          response_text = some "Your role does not permit this operation.";
          visited_nodes = some (Node.execute_mcp_tool ∷ []);
        }),
      )
      | ToolCall.failed ↦ (
        started ∷ selected ∷ content Node.execute_mcp_tool "mcp.failed" EventStatus.failed ∷ [],
        some (record no_update {
          failure = some true;
          errors = some (record { code = ErrorCode.mcp_failed; node = Node.execute_mcp_tool } ∷ []);
          visited_nodes = some (Node.execute_mcp_tool ∷ []);
        }),
      )
      | ToolCall.crashed ↦ (started ∷ selected ∷ [], none)
      | executed execution ↦ (
        started
            ∷ selected
            ∷ content Node.execute_mcp_tool "mcp.completed" EventStatus.completed
            ∷ [],
        some (record no_update {
          mcp_execution = some execution;
          response_text = some execution.response_text;
          visited_nodes = some (Node.execute_mcp_tool ∷ []);
        }),
      )
    ]

unfoldable pub execute_mcp_tool : Services → GraphState → Body
execute_mcp_tool services s = elim s.resolved_query [
  | none ↦ ([], none)
  | some query ↦ elim (services.select_tool query) [
    | none ↦ (
      content Node.execute_mcp_tool "mcp.failed" EventStatus.warning ∷ [],
      some (record no_update {
        processing_status = some ProcessingStatus.partial_success;
        response_text =
            some
              "Provide one exact fictional service name and request its profile, metrics, or change windows.";
        visited_nodes = some (Node.execute_mcp_tool ∷ []);
      }),
    )
    | some selection ↦ call_tool services s selection
  ]
]

-- The keys that every branch of `generate_response` sets from its response.
unfoldable pub response_update : GroundedResponse → Update
response_update grounded = record no_update {
  grounded_response = some grounded;
  response_text = some grounded.answer_text;
  deterministic_fallback_used = some grounded.deterministic_fallback_used;
  fallback_reason = some grounded.fallback_reason;
  visited_nodes = some (Node.generate_response ∷ []);
}

-- Only a failed validation of the dimensions makes the status partial.
abbrev pub research_status : Option FallbackReason → Option ProcessingStatus
research_status (some FallbackReason.research_dimension_validation_failed) =
    some ProcessingStatus.partial_success
research_status reason = none

-- The three branches: an analysis, a research result, or the retrieved evidence.
unfoldable pub grounded_update : Services → GraphState → Text → Option (GroundedResponse × Update)
grounded_update services s query = elim s.analysis_result [
  | some analysis ↦ elim (services.analysis_response query analysis) [
    | none ↦ none
    | some grounded ↦ some (
      grounded,
      record (response_update grounded) {
        deterministic_analysis_rendering_used = some grounded.deterministic_analysis_rendering_used;
      },
    )
  ]
  | none ↦ elim s.research_result [
    | some research ↦
        elim (services.research_response query s.retrieved_evidence s.principal research) [
          | none ↦ none
          | some (grounded, validation, calls) ↦ some (
            grounded,
            record (response_update grounded) {
              citation_validation = some validation;
              research_result = some (record research {
                llm_calls = research.llm_calls + calls;
                exhausted = research.exhausted || (calls == 0);
              });
              processing_status = research_status grounded.fallback_reason;
            },
          )
        ]
    | none ↦ elim (services.retrieval_response query s.retrieved_evidence s.principal) [
      | none ↦ none
      | some (grounded, validation) ↦
          some
            (grounded, record (response_update grounded) { citation_validation = some validation })
    ]
  ]
]

unfoldable pub generate_response : Services → GraphState → Body
generate_response services s =
    let started =
      content Node.generate_response "response.generation_started" EventStatus.started in
    let completed =
      content Node.generate_response "response.generation_completed" EventStatus.completed in
    elim s.resolved_query [
      | none ↦ (started ∷ [], none)
      | some query ↦ elim (grounded_update services s query) [
        | none ↦ (started ∷ [], none)
        | some (grounded, update) ↦ (
          elim grounded.fallback_reason [
            | none ↦ started ∷ completed ∷ []
            | some reason ↦
                started
                ∷ content Node.generate_response "response.fallback_used" EventStatus.warning
                ∷ completed
                ∷ []
          ],
          some update,
        )
      ]
    ]

-- `validation is None or validation.valid or grounded_response.deterministic_fallback_used`; none
-- where the last is read and there is no response.
abbrev pub citations_valid : Option Bool → Option GroundedResponse → Option Bool
citations_valid none grounded = some true
citations_valid (some true) grounded = some true
citations_valid (some false) none = none
citations_valid (some false) (some r) = some r.deterministic_fallback_used

unfoldable pub validate_response_citations : GraphState → Body
validate_response_citations s =
    let started =
      content Node.validate_citations "citation.validation_started" EventStatus.started in
    elim (citations_valid s.citation_validation s.grounded_response) [
      | none ↦ (started ∷ [], none)
      | some valid ↦ (
        started
            ∷ (if valid
                then content Node.validate_citations "citation.validation_completed"
                    EventStatus.completed
                else content Node.validate_citations "citation.validation_failed"
                    EventStatus.failed)
            ∷ [],
        some (record no_update {
          failure = some (not valid);
          visited_nodes = some (Node.validate_citations ∷ []);
        }),
      )
    ]

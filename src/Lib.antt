-- ===== src/Lib.antt =====
-- The enterprise knowledge assistant: authorization-aware answers over a corpus of documents, with
-- a FastAPI backend (backend/src/enterprise_ai) that runs a LangGraph of nodes, and a Streamlit
-- frontend (frontend/enterprise_ai_frontend) that follows a request's stream of events.
--
-- How the parts interact: a request passes the rate limiter; the graph loads the session's memory,
-- classifies the text, lets the supervisor select a route under the role's permissions, runs the
-- route's nodes, and writes the turn back to the memory; the API turns the graph's events into
-- envelopes with sequence numbers, which the frontend parses and checks.
--
-- Which file models what (paths without a root are below backend/src/enterprise_ai):
--   Common        tests, lists, equality, dictionaries, texts and integers that the modules share
--   Identity      models/identity.py, the tool names of models/tools.py
--   Vocabulary    Intent and Route (models/graph.py), ProcessingStatus (models/common.py),
--                 DocumentType (models/retrieval.py)
--   Security      security/policies.py, and AuthorizationService of security/authorization.py
--   RateLimit     rate_limit/models.py and policy.py (Models), InMemoryBucketStore of store.py
--                 (Store), TokenBucketRateLimiter of token_bucket.py (TokenBucket)
--   Memory        memory/models.py (Models), context.py (Context), in_memory.py (Catalog: the
--                 sessions and the eviction; Store: the operations), service.py, policies.py and
--                 sanitizer.py (Service)
--   Graph         graph/builder.py and ROUTE_NODE (Topology), graph/routing.py (Routing),
--                 graph/reducers.py and events.py (Reducers), graph/state.py (State), the services
--                 that the nodes call (Services), graph/nodes.py (Nodes: the guard; its children
--                 Request, Retrieval, Response, Research and Closing: the nodes), the run of the
--                 compiled graph (Execution), graph/runtime.py (Runtime)
--   Api           api/sse.py: chat_event_stream (Stream)
--   Frontend      SSEParser and decode_envelope (Sse) and StreamContractValidator (Contract) of
--                 frontend/enterprise_ai_frontend/sse.py, with the envelopes of api/schemas.py
--   Research      research/budgets.py (Budget), research/aggregation.py (Aggregation) and
--                 research/coverage.py (Coverage)
--   Llm           llm/citation_validator.py (Citations, Identifiers), llm/identifier_validator.py
--                 (Identifiers), the drafts of llm/models.py (Drafts), and GroundedResponseService of
--                 llm/response_service.py: the matching of claims (Matching), the comparison's checks
--                 (Comparison), the context, the checks of a draft and the fallbacks (Response and
--                 its child Checks), retrieval_response (Generation), research_response (Research)
--                 and the rendering of an analysis (Analysis)
--   Retrieval     with_retries of retrieval/retry.py (Retry)
--   Ingestion     ingestion/src/enterprise_ai_ingestion/chunker.py: the packing of blocks (Chunker),
--                 and the division of blocks, the records and their checks (Records)
--
-- Conventions. A method that changes an object takes its state and returns the new one; an
-- exception is an error value. A lock makes the body under it one step, so interleavings are lists
-- of operations (Memory.Store.Runs). Identifiers (UUID) are numbers that are only compared; times
-- are counted from an epoch; the token bucket's floating-point numbers are counted exactly, tokens in
-- units of 10^-18 and seconds in units of 10^-9, so that rounding does not occur. A regular
-- expression, the drawing of identifiers, the encoding of texts and the services that the graph's
-- nodes call are parameters of the definitions that use them: each answer of a service is a value,
-- its exceptions among them (Graph.Services); every request of a session has services of its own, since
-- a memory changes between them. What LangGraph does is taken from its documentation: the
-- reducers at a node's update and at the input, the checkpoint of a thread, and the stream of the
-- custom events and of the state behind each step.
--
-- Fuel: the graph's run takes a number of steps; fifteen are enough for every run, since every edge
-- leads to a node with fewer nodes behind it (Graph.Topology.Runs). The matching of a comparison's
-- claims takes the depth of its recursion; one more than the claims is enough, since every call below
-- visits a claim that was not visited (Llm.Comparison.Terminating). All other loops are structural
-- recursion over the list that the code walks, or over the retries or repairs that are left.
--
-- Not modelled: the tracing, logging and timeouts around the graph, the search of the retrieval, the
-- prompts and providers of the language models, the extractive fallback, the MCP tools, the Python
-- analysis, the research planner and workers, the parser and artifacts of the ingestion, tokens and
-- passwords, configuration and the user interface. Clients of external services are input and output;
-- the other parts are left to later extensions.
pub mod Common
pub mod Identity
pub mod Vocabulary
pub mod Security
pub mod RateLimit
pub mod Memory
pub mod Graph
pub mod Api
pub mod Frontend
pub mod Research
pub mod Llm
pub mod Retrieval
pub mod Ingestion

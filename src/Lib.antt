-- ===== src/Lib.antt =====
-- The language server of the khulnasoft-lsp repository: the parts that decide what happens to a
-- code suggestion, to the features that are on, and to the messages between a webview and its plugin.
--
-- The suggestion service takes a request of the editor, and gives suggestions of the cache, those of a new
-- request, or the start of a stream. A new request goes through a pipeline of clients that circuit breakers
-- guard: to the direct connection if that may be used, else to the instance. A generation is streamed: the
-- streaming handler reports to the telemetry what becomes of the suggestion, and asks the breaker.
-- The telemetry keeps a state per suggestion, and sends what a client reports to the instance, with a
-- breaker of its own. A cache serves suggestions again while the user types along. The manager of
-- feature states tells the client which checks stand in the way of a feature, among them the breaker
-- of suggestions. For a chat the user selects items of context with providers, and a manager hands them out once
-- transformers have redacted their secrets. The repositories of the workspace are known from its files,
-- with what git ignores in them. All services are made by a container for dependency injection, and the webviews
-- talk to their plugins over a message bus.
--
-- The files and the sources that they model:
--   Base: numbers, lists, keys, JavaScript's Map, Set and strings, which the other files share.
--   CircuitBreaker: src/common/circuit_breaker/exponential_backoff_circuit_breaker.ts (Exponential) and
--     fixed_time_circuit_breaker.ts (Fixed). Host is the clock with the timers that setTimeout starts.
--   Tracking: src/common/tracking/code_suggestions: constants.ts (Events),
--     code_suggestions_telemetry_state_manager.ts (State), code_suggestions_instance_tracker.ts
--     (InstanceTracker).
--   Streaming: src/common/suggestion/streaming_handler.ts, one stream as a state with events.
--   SuggestionsCache: src/common/suggestion/suggestions_cache.ts, from the entry that is found, and
--     the cache around it (Store).
--   Suggestions: src/common/suggestion: suggestion_filter.ts (Filter), suggestion_service.ts (Service:
--     its data and tests, Requests: its methods); and src/common/utils: suggestion_mappers.ts and
--     sanitize_range.ts (Items).
--   Clients: src/common/suggestion_client: suggestion_client.ts and create_v2_request.ts (Requests),
--     fallback_client.ts, suggestion_client_pipeline.ts, client_to_middleware.ts and
--     tree_sitter_middleware.ts (Pipeline), direct_connection_client.ts (Direct),
--     default_suggestion_client.ts and how suggestion_service.ts puts the clients together (Service).
--   DuoAccess: src/common/services/duo_access: project_access_checker.ts (Checker),
--     workspace_project_access_cache.ts (Workspace), api_project_access_cache.ts (ApiCache); and
--     src/common/feature_state/project_duo_acces_check.ts (Check).
--   FeatureState: src/common/feature_state: feature_state_management_types.ts and state_check.ts (Checks),
--     supported_language_check.ts (Language), feature_state_manager.ts (Manager).
--   Di: packages/lib_di/src/index.ts: its data (Classes), dependenciesArePresent and
--     noCircularDependencies (Validation), sortDependencies (Order), the methods (Container).
--   Messaging: packages/lib_webview/src/services/messaging/message_bus.ts (Bus),
--     packages/lib_handler_registry (Registry), and
--     packages/lib_webview/src/services: connection/webview_instance_message_bus.ts (Instance),
--     connection/webview_controller.ts (Controller), transport/webview_runtime_transport_mediator.ts (Mediator).
--   PreProcessors: src/common/suggestion_client/pre_processors: pre_processor_pipeline.ts,
--     empty_content.ts and supported_language.ts (Items), byte_size_limit.ts with
--     src/common/utils/byte_size.ts (ByteSize).
--   Redaction: src/common/secret_redaction/index.ts.
--   AiContext: packages/lib_ai_context (Items), and src/common/ai_context_management: ai_context_provider.ts
--     (Provider), context_transformers with src/common/utils/binary_content.ts (Transformers),
--     ai_context_manager.ts (Manager).
--   Repositories: src/common/services/fs/dir_matcher.ts (Matcher), and src/common/services/git:
--     git_ignore_manager.ts (Ignoring), repository.ts (Repository, Branches), repository_service.ts (Service).
-- A source's camelCase name is the definition's name in snake_case. Mutable fields are a record, a method is
-- a function from state to state, and what the world does (time that passes, a request that settles, a
-- task that the queue starts) is a step of its own, so that a sequence of steps is an interleaving.
--
-- Bounds: in Di the recursive searches take the depth to which calls may nest, and throw a stack overflow
-- beyond it; for the search for cycles one more than the number of classes is enough, and for the sort of
-- classes with distinct ids that passed the validation some depth is. The climb from a file to the repository
-- that holds it takes at most as many rounds as its path has characters, which is enough, since each
-- parent is shorter. Every other definition is a structural recursion. Numbers do not wrap: the sources use small counts and milliseconds.
--
-- Not modelled: input and output, log lines, texts of errors, the sizes and times of lru-cache, listeners that
-- throw, what a listener of the message bus does to it while it is called, several streams at once,
-- the search for the intent of a document, additional contexts, a cache of suggestions that is switched off,
-- the queues of the repository service, the providers of context for open tabs, files and issues, the headers
-- of requests, the API, the user interfaces. The breaker, the
-- configuration, the answers of clients, post-processors, parsers and of the API are parameters.
pub mod Base
pub mod CircuitBreaker
pub mod Tracking
pub mod Di
pub mod Messaging
pub mod Streaming
pub mod FeatureState
pub mod SuggestionsCache
pub mod Suggestions
pub mod Clients
pub mod DuoAccess
pub mod PreProcessors
pub mod Redaction
pub mod AiContext
pub mod Repositories

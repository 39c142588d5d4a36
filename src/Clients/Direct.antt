-- ===== src/Clients/Direct.antt =====
-- `direct_connection_client.ts`. A request and the fetch of the connection details are sent by `begin`, and settle
-- later, as steps of their own. The headers, the options for snowplow and the log lines are left out.
pub mod Failures
pub mod Sending
use khulnasoft_lsp.Base.{
  ℕ, ◌+◌, ◌*◌, Bool, true, false, not, List, [], ◌∷◌, ◌++◌, Option, none, some, String, ltb,
  if◌then◌else◌,
}
use khulnasoft_lsp.CircuitBreaker.Exponential
use khulnasoft_lsp.CircuitBreaker.Exponential.{
  ExponentialBackoffCircuitBreaker, ExponentialBackoffCircuitBreakerOptions,
}
use khulnasoft_lsp.Clients.Requests.{
  SuggestionContext, SuggestionResponse, ModelDetails, CodeSuggestionRequest, create_v2_request,
  is_generation,
}
use khulnasoft_lsp.Clients.Pipeline.{Reply, answered, threw}

-- `IDirectConnectionDetails`; `expires_at` is in seconds.
pub record ConnectionDetails : Type 0 where
  pub base_url : String
  pub token : String
  pub expires_at : ℕ
  pub model_details : ModelDetails

abbrev pub second : ℕ
second = 1000

abbrev pub small_grace_duration : ℕ
small_grace_duration = 40 * second

-- `areExpired`: `now > expires_at * SECOND - SMALL_GRACE_DURATION_JUST_TO_BE_SURE`, without the subtraction.
unfoldable pub are_expired : ℕ → ConnectionDetails → Bool
are_expired now dcd = ltb (dcd.expires_at * second) (now + small_grace_duration)

abbrev pub details_breaker_options : ExponentialBackoffCircuitBreakerOptions
details_breaker_options = record {
  initial_backoff_ms = second;
  max_backoff_ms = 60 * 60 * second;
  backoff_multiplier = 3;
}

abbrev pub direct_breaker_options : ExponentialBackoffCircuitBreakerOptions
direct_breaker_options = record {
  initial_backoff_ms = second;
  max_backoff_ms = 10 * 60 * second;
  backoff_multiplier = 5;
}

-- A request to the direct connection.
pub record Sent : Type 0 where
  pub base_url : String
  pub token : String
  pub request : CodeSuggestionRequest

-- `now` is the time in milliseconds, `sent` the requests sent directly, oldest first, and `details_requests` how
-- often the details have been asked for.
pub record DirectConnectionClient : Type 0 where
  pub connection_details : Option ConnectionDetails
  pub is_valid_api : Bool
  pub details_breaker : ExponentialBackoffCircuitBreaker
  pub direct_breaker : ExponentialBackoffCircuitBreaker
  pub now : ℕ
  pub sent : List Sent
  pub details_requests : ℕ

abbrev pub new : ℕ → DirectConnectionClient
new now = record {
  connection_details = none;
  is_valid_api = true;
  details_breaker = Exponential.new details_breaker_options;
  direct_breaker = Exponential.new direct_breaker_options;
  now = now;
  sent = [];
  details_requests = 0;
}

-- The listener of `onApiReconfigured`.
unfoldable pub on_api_reconfigured : Bool → DirectConnectionClient → DirectConnectionClient
on_api_reconfigured is_in_valid_state c = record c {
  connection_details = none;
  is_valid_api = is_in_valid_state;
  direct_breaker = Exponential.success c.direct_breaker;
}

-- `#fetchDirectConnectionDetails` up to its request.
unfoldable pub fetch_direct_connection_details : DirectConnectionClient → DirectConnectionClient
fetch_direct_connection_details c =
    if Exponential.is_open c.details_breaker
    then c
    else record c { details_requests = c.details_requests + 1 }

-- How the request for the details ends; a 401 is told from other failures.
pub data Fetched : Type 0 where
  details : ConnectionDetails → Fetched
  unauthorized failure : Fetched

-- `#fetchDirectConnectionDetails` from there on.
unfoldable pub receive_details : Fetched → DirectConnectionClient → DirectConnectionClient
receive_details (details dcd) c = record c { connection_details = some dcd }
receive_details unauthorized c = record c {
  details_breaker = Exponential.mega_error c.details_breaker;
  connection_details = none;
}
receive_details failure c = record c {
  details_breaker = Exponential.error c.details_breaker;
  connection_details = none;
}

-- `#fetchUsingDirectConnection` up to its request.
unfoldable pub fetch_using_direct_connection :
    ConnectionDetails → CodeSuggestionRequest → DirectConnectionClient → DirectConnectionClient
fetch_using_direct_connection dcd request c = record c {
  sent = c.sent ++ record { base_url = dcd.base_url; token = dcd.token; request = request } ∷ [];
}

unfoldable pub begin_with :
    Option ConnectionDetails
    → SuggestionContext
    → DirectConnectionClient
    → Bool × DirectConnectionClient
unfolding fetch_direct_connection_details fetch_using_direct_connection are_expired
begin_with none context c = (false, fetch_direct_connection_details c)
begin_with (some dcd) context c =
    if are_expired c.now dcd then (false, fetch_direct_connection_details c) else (
      true,
      fetch_using_direct_connection dcd (create_v2_request context (some dcd.model_details)) c,
    )

-- `getSuggestions` up to its request, and whether there is one; without one it gives `undefined`.
unfoldable pub begin : SuggestionContext → DirectConnectionClient → Bool × DirectConnectionClient
unfolding begin_with is_generation
begin context c =
    if is_generation context.intent
    then (false, c)
    else if not c.is_valid_api
    then (false, c)
    else if Exponential.is_open c.direct_breaker
    then (false, c)
    else begin_with c.connection_details context c

-- `response && { ...response, isDirectConnection: true }`
abbrev pub mark : Bool → Option SuggestionResponse → Option SuggestionResponse
mark is_direct none = none
mark is_direct (some response) = some (record response { is_direct_connection = some is_direct })

-- `getSuggestions` from there on.
unfoldable pub settle :
    Reply → DirectConnectionClient → Option SuggestionResponse × DirectConnectionClient
settle (answered response) c = (mark true response, c)
settle threw c = (none, record c { direct_breaker = Exponential.error c.direct_breaker })

-- What happens to the client; between a request and its reply other things may.
pub data Event : Type 0 where
  asked : SuggestionContext → Event
  replied : Reply → Event
  received : Fetched → Event
  reconfigured : Bool → Event
  elapsed : ℕ → Event

unfoldable pub step : Event → DirectConnectionClient → DirectConnectionClient
unfolding begin settle receive_details on_api_reconfigured
step (asked context) c = (begin context c).1
step (replied reply) c = (settle reply c).1
step (received fetched) c = receive_details fetched c
step (reconfigured is_in_valid_state) c = on_api_reconfigured is_in_valid_state c
step (elapsed d) c = record c {
  now = c.now + d;
  details_breaker = Exponential.elapse d c.details_breaker;
  direct_breaker = Exponential.elapse d c.direct_breaker;
}

unfoldable pub run : List Event → DirectConnectionClient → DirectConnectionClient
unfolding step
run [] c = c
run (e ∷ es) c = run es (step e c)

-- ===== src/Clients/Tests.antt =====
-- The theorems on a completion request, with connection details that are fresh and a direct connection that fails.
use khulnasoft_lsp.Base.{ℕ, ◌+◌, List, [], ◌∷◌, none, some, ◌≡◌, ◌⊎◌}
use khulnasoft_lsp.Clients.Requests.{SuggestionContext, completion, SuggestionResponse}
use khulnasoft_lsp.Clients.Pipeline.{answered, threw, Client, parsed, resolved, get_suggestions}
use khulnasoft_lsp.Clients.Direct
use khulnasoft_lsp.Clients.Direct.{
  ConnectionDetails, direct_breaker_options, DirectConnectionClient, begin, details, failure,
  unauthorized, receive_details, settle, Event, asked, replied, received, elapsed, step, run,
}
use khulnasoft_lsp.Clients.Direct.Failures.{run-error_counts}
use khulnasoft_lsp.Clients.Direct.Sending.{IsUsable, Sends, Declines, begin-Sends}
use khulnasoft_lsp.Clients.Service.{Answerers, Clients, suggestion_client_pipeline}
use khulnasoft_lsp.Clients.Service.Answering.{AnswersAs, resolve_intent, get_suggestions-AnswersAs}

abbrev context : SuggestionContext
context = record {
  document = record { prefix = 120 ∷ []; suffix = []; file_relative_path = 97 ∷ [] };
  intent = none;
  project_path = none;
  options_count = some 1;
  additional_contexts = none;
}

abbrev connection : ConnectionDetails
connection = record {
  base_url = "https://cloud";
  token = "t";
  expires_at = 3600;
  model_details = record { model_provider = "p"; model_name = "m" };
}

abbrev response : SuggestionResponse
response = record {
  choices = some ((121 ∷ []) ∷ []);
  status = 200;
  error_message = none;
  is_direct_connection = none;
}

-- The details are fetched at the second attempt, and one direct request succeeds.
abbrev events : List Event
events =
    received failure
    ∷ elapsed 1000
    ∷ received (details connection)
    ∷ asked context
    ∷ replied (answered (some response))
    ∷ []

run-error_counts_example :
    ((run events (Direct.new 5)).direct_breaker.error_count ≡ 0)
    × ((run events (Direct.new 5)).details_breaker.error_count ≡ 1)
run-error_counts_example = run-error_counts 5 events

abbrev client : DirectConnectionClient
client = record (Direct.new 5) { connection_details = some connection }

begin-Sends_example :
    ((dcd : ConnectionDetails) × IsUsable context client dcd
      × Sends context dcd client (begin context client))
    ⊎ (((dcd : ConnectionDetails) → ¬ IsUsable context client dcd)
        × Declines client (begin context client))
begin-Sends_example = begin-Sends context client

abbrev answerers : Answerers ℕ
answerers = record {
  direct_reply = λ c. threw;
  instance_reply = λ r. answered (some response);
  parse_file = λ c. parsed (some 0);
  get_intent = λ tree c. resolved (some completion);
}

abbrev clients : Clients
clients = record { direct = client; instance_sent = [] }

get_suggestions-AnswersAs_example :
    AnswersAs answerers
      (resolve_intent answerers context none)
      clients
      (get_suggestions (suggestion_client_pipeline answerers) context clients)
get_suggestions-AnswersAs_example = get_suggestions-AnswersAs answerers context clients

abbrev counting : Client ℕ
counting c n = (answered none, n + 1)

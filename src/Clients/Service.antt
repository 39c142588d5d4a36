-- ===== src/Clients/Service.antt =====
-- How `suggestion_service.ts` puts the clients together, with `default_suggestion_client.ts`: the direct connection,
-- the instance if that gives nothing, and the intent of the syntax tree before.
pub mod Answering
use khulnasoft_lsp.Base.{Bool, true, false, List, [], ◌∷◌, ◌++◌, Option, none, some, if◌then◌else◌}
use khulnasoft_lsp.Clients.Requests.{
  SuggestionContext, SuggestionResponse, CodeSuggestionRequest, create_v2_request,
}
use khulnasoft_lsp.Clients.Pipeline.{
  Reply, answered, threw, Client, Parse, Resolution, fallback, client_to_middleware,
  tree_sitter_middleware, SuggestionClientPipeline, new,
}
use khulnasoft_lsp.Clients.Direct.{DirectConnectionClient, begin, settle, mark}

-- What answers: the direct connection, the instance, the parser of syntax trees and `getIntent`.
pub record Answerers {ℓ} (T : Type ℓ) : Type ℓ where
  pub direct_reply : SuggestionContext → Reply
  pub instance_reply : CodeSuggestionRequest → Reply
  pub parse_file : SuggestionContext → Parse T
  pub get_intent : T → SuggestionContext → Resolution

-- The direct client, and the requests sent to the instance, oldest first.
pub record Clients : Type 0 where
  pub direct : DirectConnectionClient
  pub instance_sent : List CodeSuggestionRequest

abbrev pub mark_reply : Bool → Reply → Reply
mark_reply is_direct (answered response) = answered (mark is_direct response)
mark_reply is_direct threw = threw

abbrev pub settle_direct :
    Reply → DirectConnectionClient → List CodeSuggestionRequest → Reply × Clients
settle_direct reply c instance_sent =
    let (response, c') = settle reply c in
    (answered response, record { direct = c'; instance_sent = instance_sent })

module _ {ℓ} {T : Type ℓ} (a : Answerers T) where
  -- `DirectConnectionClient.getSuggestions`, when nothing happens before its reply.
  unfoldable pub direct_connection_client : Client Clients
  unfolding begin settle
  direct_connection_client context w =
      let (begun, c) = begin context w.direct in
      if begun
      then settle_direct (a.direct_reply context) c w.instance_sent
      else (answered none, record w { direct = c })

  -- `DefaultSuggestionClient.getSuggestions`
  unfoldable pub default_suggestion_client : Client Clients
  unfolding create_v2_request
  default_suggestion_client context w =
      let request = create_v2_request context none in
      (
        mark_reply false (a.instance_reply request),
        record w { instance_sent = w.instance_sent ++ request ∷ [] },
      )

  unfoldable pub suggestion_client : Client Clients
  suggestion_client = fallback (direct_connection_client ∷ default_suggestion_client ∷ [])

  unfoldable pub suggestion_client_pipeline : SuggestionClientPipeline Clients
  suggestion_client_pipeline = new (
      client_to_middleware suggestion_client
      ∷ tree_sitter_middleware a.parse_file a.get_intent
      ∷ [])

-- ===== src/Clients/Service/Answering.antt =====
-- Who answers a request for suggestions.
use khulnasoft_lsp.Base.{true, false, [], ◌∷◌, ◌++◌, Option, none, some, ◌≡◌, refl, ◌⊎◌, inl, inr}
use khulnasoft_lsp.Clients.Requests.{
  Intent, SuggestionContext, SuggestionResponse, create_v2_request,
}
use khulnasoft_lsp.Clients.Pipeline.{
  Reply, answered, threw, Client, Parse, parsed, failed, Resolution, resolved, unresolvable,
  or_else, fallback, client_to_middleware, tree_sitter_middleware, with_intent, with_parse,
  with_resolution, get_suggestions, new, build_pipeline, reduce, unresolved,
}
use khulnasoft_lsp.Clients.Direct.{ConnectionDetails, DirectConnectionClient, settle}
use khulnasoft_lsp.Clients.Direct.Sending.{IsUsable, begin-Sends}
use khulnasoft_lsp.Clients.Service.{
  Answerers, Clients, mark_reply, settle_direct, direct_connection_client,
  default_suggestion_client, suggestion_client, suggestion_client_pipeline,
}

-- The direct connection, which may be used, gave the response, and the instance was not asked.
abbrev pub AnswersDirectly : SuggestionContext → Clients → Reply × Clients → Type 0
AnswersDirectly context w (reply, w') =
    (response : SuggestionResponse) × (reply ≡ answered (some response))
    × (response.is_direct_connection ≡ some true)
    × (w'.instance_sent ≡ w.instance_sent)
    × ((dcd : ConnectionDetails) × IsUsable context w.direct dcd)

-- The instance was asked once, and its reply is given.
abbrev pub AnswersByInstance {ℓ} :
    {T : Type ℓ} → Answerers T → SuggestionContext → Clients → Reply × Clients → Type 0
AnswersByInstance a context w (reply, w') =
    (reply ≡ mark_reply false (a.instance_reply (create_v2_request context none)))
    × (w'.instance_sent ≡ w.instance_sent ++ create_v2_request context none ∷ [])

last_client {ℓ} : {S : Type ℓ} (p : Reply × S) → or_else p (λ s. (answered none, s)) ≡ p
unfolding or_else
last_client (answered (some response), s) = refl
last_client (answered none, s) = refl
last_client (threw, s) = refl

module _ {ℓ} {T : Type ℓ} (a : Answerers T) where
  abbrev pub Answers : SuggestionContext → Clients → Reply × Clients → Type 0
  Answers context w r = AnswersDirectly context w r ⊎ AnswersByInstance a context w r

  by_instance :
      (context : SuggestionContext) (w v : Clients)
      → v.instance_sent ≡ w.instance_sent
      → AnswersByInstance a context w (fallback (default_suggestion_client a ∷ []) context v)
  unfolding fallback default_suggestion_client
  by_instance context w v same =
      rw (last_client (default_suggestion_client a context v)) (refl, rw same)

  -- What follows the direct client.
  after_direct :
      (context : SuggestionContext) (w : Clients) (reply : Reply) (c : DirectConnectionClient)
      → ((dcd : ConnectionDetails) × IsUsable context w.direct dcd)
      → Answers context w (
          or_else
            (settle_direct reply c w.instance_sent)
            (λ v. fallback (default_suggestion_client a ∷ []) context v))
  unfolding or_else settle
  after_direct context w (answered (some response)) c u = inl (_, refl, refl, refl, u)
  after_direct context w (answered none) c u = inr (by_instance context w _ refl)
  after_direct context w threw c u = inr (by_instance context w _ refl)

  suggestion_client-Answers :
      (context : SuggestionContext) (w : Clients)
      → Answers context w (suggestion_client a context w)
  unfolding fallback suggestion_client or_else direct_connection_client
  suggestion_client-Answers context w = elim (begin-Sends context w.direct) [
    | inl (dcd, u, s) ↦ rw s.0 (after_direct context w (a.direct_reply context) _ (dcd, u))
    | inr (n, d) ↦ rw d.0 (inr (by_instance context w _ refl))
  ]

  -- What the clients are asked with: the intent is that of the context or of the syntax tree, if there is one.
  abbrev resolve_with : SuggestionContext → Resolution → Option SuggestionContext
  resolve_with context (resolved intent) = some (record context { intent = intent })
  resolve_with context unresolvable = none

  abbrev resolve_tree : SuggestionContext → Parse T → Option SuggestionContext
  resolve_tree context failed = some context
  resolve_tree context (parsed none) = some context
  resolve_tree context (parsed (some tree)) = resolve_with context (a.get_intent tree context)

  abbrev pub resolve_intent : SuggestionContext → Option Intent → Option SuggestionContext
  resolve_intent context (some intent) = some context
  resolve_intent context none = resolve_tree context (a.parse_file context)

  abbrev pub AnswersAs : Option SuggestionContext → Clients → Reply × Clients → Type 0
  AnswersAs none w r = r ≡ (threw, w)
  AnswersAs (some context) w r = Answers context w r

  abbrev asks_clients : Client Clients
  asks_clients context w = client_to_middleware (suggestion_client a) context unresolved w

  with_resolution-AnswersAs :
      (context : SuggestionContext) (r : Resolution) (w : Clients)
      → AnswersAs (resolve_with context r) w (with_resolution context r asks_clients w)
  unfolding with_resolution client_to_middleware
  with_resolution-AnswersAs context (resolved intent) w = suggestion_client-Answers _ w
  with_resolution-AnswersAs context unresolvable w = refl

  with_parse-AnswersAs :
      (context : SuggestionContext) (tree : Parse T) (w : Clients)
      → AnswersAs
          (resolve_tree context tree)
          w
          (with_parse a.get_intent context tree asks_clients w)
  unfolding with_parse client_to_middleware
  with_parse-AnswersAs context failed w = suggestion_client-Answers context w
  with_parse-AnswersAs context (parsed none) w = suggestion_client-Answers context w
  with_parse-AnswersAs context (parsed (some tree)) w =
      with_resolution-AnswersAs context (a.get_intent tree context) w

  with_intent-AnswersAs :
      (context : SuggestionContext) (intent : Option Intent) (w : Clients)
      → AnswersAs
          (resolve_intent context intent)
          w
          (with_intent a.parse_file a.get_intent context intent asks_clients w)
  unfolding with_intent client_to_middleware
  with_intent-AnswersAs context (some intent) w = suggestion_client-Answers context w
  with_intent-AnswersAs context none w = with_parse-AnswersAs context (a.parse_file context) w

  -- A request without an intent, whose intent cannot be resolved though there is a syntax tree, fails, and nobody is
  -- asked. Any other is answered either by the direct connection, which may be used for it (so it is not for a
  -- generation), with the instance not asked, or by the instance, which is asked exactly once.
  pub get_suggestions-AnswersAs :
      (context : SuggestionContext) (w : Clients)
      → AnswersAs
          (resolve_intent context context.intent)
          w
          (get_suggestions (suggestion_client_pipeline a) context w)
  unfolding get_suggestions suggestion_client_pipeline new build_pipeline reduce
      tree_sitter_middleware
  get_suggestions-AnswersAs context w = with_intent-AnswersAs context context.intent w

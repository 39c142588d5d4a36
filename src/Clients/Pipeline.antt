-- ===== src/Clients/Pipeline.antt =====
-- `fallback_client.ts`, `suggestion_client_pipeline.ts`, `client_to_middleware.ts` and
-- `tree_sitter_middleware.ts`. A client is a function that also takes and gives the state of everything it calls.
pub mod Laws
use khulnasoft_lsp.Base.{List, [], ◌∷◌, ◌++◌, Option, none, some}
use khulnasoft_lsp.Clients.Requests.{Intent, SuggestionContext, SuggestionResponse}

-- How a promise of a response settles.
pub data Reply : Type 0 where
  answered : Option SuggestionResponse → Reply
  threw : Reply

-- `SuggestionClientFn`
abbrev pub Client {ℓ} : Type ℓ → Type ℓ
Client S = SuggestionContext → S → Reply × S

-- `SuggestionClientMiddleware`
abbrev pub Middleware {ℓ} : Type ℓ → Type ℓ
Middleware S = SuggestionContext → Client S → S → Reply × S

-- A parse of the document: it may fail, and find no tree.
pub data Parse {ℓ} (T : Type ℓ) : Type ℓ where
  parsed : Option T → Parse T
  failed : Parse T

module _ {ℓ} {S : Type ℓ} where
  -- What follows the answer of a client: the other clients are asked if it has none.
  unfoldable pub or_else : Reply × S → (S → Reply × S) → Reply × S
  or_else (answered (some response), s) others = (answered (some response), s)
  or_else (answered none, s) others = others s
  or_else (threw, s) others = (threw, s)

  -- `FallbackClient.getSuggestions`
  unfoldable pub fallback : List (Client S) → Client S
  unfolding or_else
  fallback [] context s = (answered none, s)
  fallback (client ∷ clients) context s =
      or_else (client context s) (λ s'. fallback clients context s')

  -- The end of the pipeline, which rejects.
  abbrev pub unresolved : Client S
  unresolved context s = (threw, s)

  unfoldable pub reduce : Client S → List (Middleware S) → Client S
  reduce acc [] = acc
  reduce acc (middleware ∷ middlewares) = reduce (λ context s. middleware context acc s) middlewares

  -- `#buildPipeline`
  unfoldable pub build_pipeline : List (Middleware S) → Client S
  unfolding reduce
  build_pipeline middlewares = reduce unresolved middlewares

pub record SuggestionClientPipeline {ℓ} (S : Type ℓ) : Type ℓ where
  pub middlewares : List (Middleware S)
  pub pipeline : Client S

module _ {ℓ} {S : Type ℓ} where
  unfoldable pub new : List (Middleware S) → SuggestionClientPipeline S
  new middlewares = record { middlewares = middlewares; pipeline = build_pipeline middlewares }

  -- `use`
  unfoldable pub use_middleware :
      Middleware S → SuggestionClientPipeline S → SuggestionClientPipeline S
  use_middleware middleware p =
      let middlewares = p.middlewares ++ middleware ∷ [] in
      record { middlewares = middlewares; pipeline = build_pipeline middlewares }

  unfoldable pub get_suggestions : SuggestionClientPipeline S → Client S
  get_suggestions p context s = p.pipeline context s

  -- `clientToMiddleware`
  unfoldable pub client_to_middleware : Client S → Middleware S
  client_to_middleware client context next s = client context s

-- The intent that `getIntentFn` finds, unless it throws.
pub data Resolution : Type 0 where
  resolved : Option Intent → Resolution
  unresolvable : Resolution

module _ {ℓ} {S : Type ℓ} where
  unfoldable pub with_resolution : SuggestionContext → Resolution → Client S → S → Reply × S
  with_resolution context (resolved intent) next s = next (record context { intent = intent }) s
  with_resolution context unresolvable next s = (threw, s)

module _ {ℓ κ} {S : Type ℓ} {T : Type κ} where
  unfoldable pub with_parse :
      (T → SuggestionContext → Resolution) → SuggestionContext → Parse T → Client S → S → Reply × S
  unfolding with_resolution
  with_parse get_intent context failed next s = next context s
  with_parse get_intent context (parsed none) next s = next context s
  with_parse get_intent context (parsed (some tree)) next s =
      with_resolution context (get_intent tree context) next s

  unfoldable pub with_intent :
      (SuggestionContext → Parse T)
      → (T → SuggestionContext → Resolution)
      → SuggestionContext
      → Option Intent
      → Client S
      → S
      → Reply × S
  unfolding with_parse
  with_intent parse_file get_intent context (some intent) next s = next context s
  with_intent parse_file get_intent context none next s =
      with_parse get_intent context (parse_file context) next s

  -- `createTreeSitterMiddleware`, with the parser and `getIntentFn` as parameters.
  unfoldable pub tree_sitter_middleware :
      (SuggestionContext → Parse T) → (T → SuggestionContext → Resolution) → Middleware S
  unfolding with_intent
  tree_sitter_middleware parse_file get_intent context next s =
      with_intent parse_file get_intent context context.intent next s

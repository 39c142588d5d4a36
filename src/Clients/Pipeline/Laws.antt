-- ===== src/Clients/Pipeline/Laws.antt =====
-- The pipeline in general.
use khulnasoft_lsp.Base.{List, [], ◌∷◌, ◌++◌, ◌≡◌, refl, sym, ap, ◌∙◌}
use khulnasoft_lsp.Clients.Requests.{SuggestionContext}
use khulnasoft_lsp.Clients.Pipeline.{
  Reply, Client, Middleware, unresolved, reduce, build_pipeline, SuggestionClientPipeline,
  use_middleware, get_suggestions,
}

module _ {ℓ} {S : Type ℓ} where
  reduce-append :
      (acc : Client S) (ms ns : List (Middleware S))
      → reduce acc (ms ++ ns) ≡ reduce (reduce acc ms) ns
  unfolding reduce
  reduce-append acc [] ns = refl
  reduce-append acc (m ∷ ms) ns = reduce-append (λ context s. m context acc s) ms ns

  -- The function that is kept is the one of the middlewares that are kept.
  abbrev pub IsBuilt : SuggestionClientPipeline S → Type ℓ
  IsBuilt p = p.pipeline ≡ build_pipeline p.middlewares

  -- The middleware that was added last gets a context first, with the pipeline as it was before as what is next; and
  -- the pipeline stays built.
  pub use_middleware-get_suggestions :
      (middleware : Middleware S) (p : SuggestionClientPipeline S)
      → IsBuilt p
      → IsBuilt (use_middleware middleware p)
        × ((context : SuggestionContext) (s : S)
            → get_suggestions (use_middleware middleware p) context s
              ≡ middleware context (get_suggestions p) s)
  unfolding use_middleware get_suggestions build_pipeline reduce
  use_middleware-get_suggestions middleware p built = (
    refl,
    λ context s.
        let e : reduce unresolved (p.middlewares ++ middleware ∷ [])
            ≡ (λ c t. middleware c p.pipeline t) =
          reduce-append unresolved p.middlewares (middleware ∷ [])
          ∙ ap {B = Client S} (λ (acc : Client S) c t. middleware c acc t) (sym built) in
        ap {B = Reply × S} (λ (f : Client S). f context s) e,
  )

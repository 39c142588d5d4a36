-- ===== src/Messaging/Registry.antt =====
-- `packages/lib_handler_registry`: `simple_registry.ts`, `hashed_registry.ts` and the errors. A handler
-- is a function that returns or throws; `handle` waits for it.
pub mod Handling
use khulnasoft_lsp.Base.{Bool, List, [], length, ℕ, String, Option, none, some, text_key}
use khulnasoft_lsp.Base.JsMap
use khulnasoft_lsp.Base.JsMap.{JsMap}

-- What is thrown: an `Error` with its message, a string, null or undefined, or anything else.
pub data Thrown : Type 0 where
  an_error : String → Thrown
  a_string : String → Thrown
  nothing anything : Thrown

-- `resolveError`: the message of the error.
unfoldable pub resolve_error : Thrown → String
resolve_error (an_error message) = message
resolve_error (a_string message) = message
resolve_error nothing = "Unknown error"
resolve_error anything = "Unknown error"

pub data Outcome {ℓ} (R : Type ℓ) : Type ℓ where
  returned : R → Outcome R
  threw : Thrown → Outcome R

-- How the promise of `handle` settles: `HandlerNotFoundError` has the key, `UnhandledHandlerError` the key
-- and the message of the original error.
pub data Reply {ℓ} (R : Type ℓ) : Type ℓ where
  replied : R → Reply R
  handler_not_found : String → Reply R
  unhandled : String → String → Reply R

-- What the promise of `handle` gives when the handler has run.
abbrev pub reply_of {κ} : {R : Type κ} → String → Outcome R → Reply R
reply_of key (returned r) = replied r
reply_of key (threw e) = unhandled key (resolve_error e)

-- `SimpleRegistry`
module _ {ℓ κ} {A : Type ℓ} {R : Type κ} where
  unfoldable pub register :
      String → (A → Outcome R) → JsMap String (A → Outcome R) → JsMap String (A → Outcome R)
  register key handler handlers = JsMap.set handlers key handler

  -- `dispose` of what `register` returned: it takes out whatever handler the key has by then.
  unfoldable pub unregister : String → JsMap String (A → Outcome R) → JsMap String (A → Outcome R)
  unregister key handlers = JsMap.delete handlers key

  unfoldable pub has_handler : JsMap String (A → Outcome R) → String → Bool
  has_handler handlers key = JsMap.has handlers key

  unfoldable pub size : JsMap String (A → Outcome R) → ℕ
  size handlers = length handlers

  unfoldable pub handle_with : String → A → Option (A → Outcome R) → Reply R
  handle_with key argument none = handler_not_found key
  handle_with key argument (some handler) = reply_of key (handler argument)

  -- `handle`
  unfoldable pub handle : JsMap String (A → Outcome R) → String → A → Reply R
  unfolding handle_with
  handle handlers key argument = handle_with key argument (JsMap.get handlers key)

  -- `dispose`
  unfoldable pub dispose_all : JsMap String (A → Outcome R) → JsMap String (A → Outcome R)
  dispose_all handlers = []

  -- `HashedRegistry`
  module _ {ι} {K : Type ι} (hash : K → String) where
    unfoldable pub register_hashed :
        K → (A → Outcome R) → JsMap String (A → Outcome R) → JsMap String (A → Outcome R)
    unfolding register
    register_hashed key handler handlers = register (hash key) handler handlers

    unfoldable pub unregister_hashed :
        K → JsMap String (A → Outcome R) → JsMap String (A → Outcome R)
    unfolding unregister
    unregister_hashed key handlers = unregister (hash key) handlers

    unfoldable pub has_hashed : JsMap String (A → Outcome R) → K → Bool
    unfolding has_handler
    has_hashed handlers key = has_handler handlers (hash key)

    unfoldable pub handle_hashed : JsMap String (A → Outcome R) → K → A → Reply R
    unfolding handle
    handle_hashed handlers key argument = handle handlers (hash key) argument

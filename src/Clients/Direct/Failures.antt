-- ===== src/Clients/Direct/Failures.antt =====
-- The two breakers of the direct connection over the life of the client.
use khulnasoft_lsp.Base.{
  ℕ, suc, ◌+◌, Bool, false, List, [], ◌∷◌, some, ◌≡◌, refl, arith, ltb, any, if_both, not, none,
  Option,
}
use khulnasoft_lsp.CircuitBreaker.Host.{set_timeout, clear_timeout, emit, is_pending}
use khulnasoft_lsp.CircuitBreaker.Exponential
use khulnasoft_lsp.CircuitBreaker.Exponential.{
  ExponentialBackoffCircuitBreaker, ExponentialBackoffCircuitBreakerOptions, get_backoff_time,
  is_open, error, mega_error, success, elapse,
}
use khulnasoft_lsp.CircuitBreaker.Exponential.Timing.{IsTimed}
use khulnasoft_lsp.Clients.Requests.{SuggestionContext, is_generation}
use khulnasoft_lsp.Clients.Pipeline.{answered, threw}
use khulnasoft_lsp.Clients.Direct.{
  ConnectionDetails, are_expired, details_breaker_options, direct_breaker_options,
  DirectConnectionClient, new, on_api_reconfigured, fetch_direct_connection_details, details,
  unauthorized, failure, receive_details, fetch_using_direct_connection, begin_with, begin, settle,
  Event, asked, replied, received, reconfigured, elapsed, step, run,
}

-- The direct requests that failed since the API was last reconfigured, from `n` on.
abbrev pub direct_failures : ℕ → List Event → ℕ
direct_failures n [] = n
direct_failures n (replied threw ∷ es) = direct_failures (suc n) es
direct_failures n (reconfigured b ∷ es) = direct_failures 0 es
direct_failures n (_ ∷ es) = direct_failures n es

-- The weight of all requests for details that failed: 3 for a 401 and 1 for another failure.
abbrev pub details_failures : ℕ → List Event → ℕ
details_failures n [] = n
details_failures n (received unauthorized ∷ es) = details_failures (n + 3) es
details_failures n (received failure ∷ es) = details_failures (n + 1) es
details_failures n (_ ∷ es) = details_failures n es

-- A breaker with the options `o` and `n` errors, whose timers are in order.
abbrev IsCounted :
    ExponentialBackoffCircuitBreakerOptions → ℕ → ExponentialBackoffCircuitBreaker → Type 0
IsCounted o n b = (b.options ≡ o) × (b.error_count ≡ n) × IsTimed b

error-IsCounted :
    (o : ExponentialBackoffCircuitBreakerOptions) (n : ℕ) (b : ExponentialBackoffCircuitBreaker)
    → IsCounted o n b
    → IsCounted o (n + 1) (error b)
unfolding error set_timeout emit get_backoff_time
error-IsCounted o n b h = ground arith

mega_error-IsCounted :
    (o : ExponentialBackoffCircuitBreakerOptions) (n : ℕ) (b : ExponentialBackoffCircuitBreaker)
    → IsCounted o n b
    → IsCounted o (n + 3) (mega_error b)
unfolding mega_error set_timeout emit get_backoff_time
mega_error-IsCounted o n b h = ground arith

success-IsCounted :
    (o : ExponentialBackoffCircuitBreakerOptions) (n : ℕ) (b : ExponentialBackoffCircuitBreaker)
    → IsCounted o n b
    → IsCounted o 0 (success b)
unfolding success clear_timeout emit
success-IsCounted o n b h = ground arith

elapse-IsCounted :
    (o : ExponentialBackoffCircuitBreakerOptions) (n d : ℕ) (b : ExponentialBackoffCircuitBreaker)
    → IsCounted o n b
    → IsCounted o n (elapse d b)
unfolding elapse is_pending any clear_timeout emit
elapse-IsCounted o n d b h = ground arith

-- Both breakers, with their numbers of errors.
abbrev IsCountedClient : ℕ → ℕ → DirectConnectionClient → Type 0
IsCountedClient n m c =
    IsCounted direct_breaker_options n c.direct_breaker
    × IsCounted details_breaker_options m c.details_breaker

begin-IsCountedClient :
    (n m : ℕ) (context : SuggestionContext) (c : DirectConnectionClient)
    → IsCountedClient n m c
    → IsCountedClient n m (begin context c).1
unfolding begin begin_with fetch_direct_connection_details fetch_using_direct_connection
begin-IsCountedClient n m context c h = if_both P (is_generation context.intent) _ _ h (
    if_both P (not c.is_valid_api) _ _ h
      (if_both P (is_open c.direct_breaker) _ _ h (go c.connection_details)))
  where
    P : Bool × DirectConnectionClient → Type 0
    P r = IsCountedClient n m r.1

    fetching : P (false, fetch_direct_connection_details c)
    fetching = if_both (IsCountedClient n m) (is_open c.details_breaker) _ _ h h

    go : (o : Option ConnectionDetails) → P (begin_with o context c)
    go none = fetching
    go (some dcd) = if_both P (are_expired c.now dcd) _ _ fetching h

run-IsCountedClient :
    (n m : ℕ) (es : List Event) (c : DirectConnectionClient)
    → IsCountedClient n m c
    → IsCountedClient (direct_failures n es) (details_failures m es) (run es c)
unfolding run step settle receive_details on_api_reconfigured
run-IsCountedClient n m [] c h = h
run-IsCountedClient n m (asked context ∷ es) c h =
    run-IsCountedClient n m es _ (begin-IsCountedClient n m context c h)
run-IsCountedClient n m (replied (answered response) ∷ es) c h = run-IsCountedClient n m es c h
run-IsCountedClient n m (replied threw ∷ es) c (f, g) =
    let e : n + 1 ≡ suc n = omega arith in
    run-IsCountedClient (suc n) m es _
      (rw⁻¹ e (error-IsCounted direct_breaker_options n c.direct_breaker f), g)
run-IsCountedClient n m (received (details dcd) ∷ es) c h = run-IsCountedClient n m es _ h
run-IsCountedClient n m (received unauthorized ∷ es) c (f, g) =
    run-IsCountedClient n (m + 3) es _
      (f, mega_error-IsCounted details_breaker_options m c.details_breaker g)
run-IsCountedClient n m (received failure ∷ es) c (f, g) =
    run-IsCountedClient n (m + 1) es _
      (f, error-IsCounted details_breaker_options m c.details_breaker g)
run-IsCountedClient n m (reconfigured b ∷ es) c (f, g) =
    run-IsCountedClient 0 m es _ (success-IsCounted direct_breaker_options n c.direct_breaker f, g)
run-IsCountedClient n m (elapsed d ∷ es) c (f, g) = run-IsCountedClient n m es _ (
  elapse-IsCounted direct_breaker_options n d c.direct_breaker f,
  elapse-IsCounted details_breaker_options m d c.details_breaker g,
)

-- Whatever happens to a new client, the errors of the breaker of direct requests are the direct requests that
-- failed since the API was last reconfigured, and those of the breaker of the details are all failures to get them,
-- where a 401 counts for three: no request that succeeds makes either smaller.
pub run-error_counts :
    (now : ℕ) (events : List Event)
    → ((run events (new now)).direct_breaker.error_count ≡ direct_failures 0 events)
      × ((run events (new now)).details_breaker.error_count ≡ details_failures 0 events)
unfolding Exponential.new
run-error_counts now events =
    let (f, g) =
      run-IsCountedClient 0 0 events (new now) ((refl, refl, refl), (refl, refl, refl)) in
    (f.1, g.1)

failed-open :
    (o : ExponentialBackoffCircuitBreakerOptions) (n d : ℕ) (b : ExponentialBackoffCircuitBreaker)
    → IsCounted o n b
    → is_open b ≡ false
    → is_open (elapse d (error b)) ≡ ltb d (get_backoff_time o (n + 1))
unfolding error set_timeout emit elapse is_pending any clear_timeout is_open
failed-open o n d b h shut = ground arith

-- After whatever happened to a new client, if the breaker of direct requests is closed and a direct request fails,
-- the breaker is still open d milliseconds later exactly if d is smaller than the backoff for the number of direct
-- requests that have failed since the API was last reconfigured, with this one.
pub failed_request-is_open :
    (now d : ℕ) (events : List Event)
    → is_open (run events (new now)).direct_breaker ≡ false
    → is_open (step (elapsed d) (step (replied threw) (run events (new now)))).direct_breaker
      ≡ ltb d (get_backoff_time direct_breaker_options (direct_failures 0 events + 1))
unfolding Exponential.new step settle
failed_request-is_open now d events shut =
    let (f, g) =
      run-IsCountedClient 0 0 events (new now) ((refl, refl, refl), (refl, refl, refl)) in
    failed-open direct_breaker_options (direct_failures 0 events) d _ f shut

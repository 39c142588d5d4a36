-- ===== src/CircuitBreaker/Exponential/Timing.antt =====
-- Timers of the exponential breaker: one while it is open, none while it is closed.
use native.Mathlib.Nat.{one-le-pow, pow-le-pow_right, mul-le-mul_left, add-zero}
use khulnasoft_lsp.Base.{
  ℕ, zero, suc, ◌+◌, ◌*◌, ◌^◌, ◌-◌, ◌≤◌, true, false, List, [], ◌∷◌, Option, some, ◌≡◌, refl, arith,
  ltb, any,
}
use khulnasoft_lsp.CircuitBreaker.Host.{
  CircuitBreakerState, opened, closed, Timer, open_event, close_event, BreakerEvent, set_timeout,
  clear_timeout, emit, is_pending, add_listener, remove_listener,
}
use khulnasoft_lsp.CircuitBreaker.Exponential.{
  ExponentialBackoffCircuitBreakerOptions, ExponentialBackoffCircuitBreaker, Operation, error_op,
  mega_error_op, success_op, on_op, dispose_op, elapse_op, new, get_backoff_time, close, error,
  mega_error, success, is_open, on, dispose, elapse, step, run,
}

abbrev TimersOf : CircuitBreakerState → Option ℕ → List Timer → ℕ → Type 0
TimersOf closed timeout_id timers latest = timers ≡ []
TimersOf opened timeout_id timers latest =
    (t : Timer) × (timers ≡ t ∷ []) × (timeout_id ≡ some t.id) × (t.due ≤ latest)

-- The pending timers are none while the breaker is closed. While it is open there is one, which
-- `#timeoutId` names, and it is due within the maximal backoff.
abbrev pub IsTimed : ExponentialBackoffCircuitBreaker → Type 0
IsTimed b = TimersOf b.state b.timeout_id b.host.timers (b.host.now + b.options.max_backoff_ms)

error-IsTimed : (b : ExponentialBackoffCircuitBreaker) → IsTimed b → IsTimed (error b)
unfolding error set_timeout emit get_backoff_time
error-IsTimed b h = ground arith

mega_error-IsTimed : (b : ExponentialBackoffCircuitBreaker) → IsTimed b → IsTimed (mega_error b)
unfolding mega_error set_timeout emit get_backoff_time
mega_error-IsTimed b h = ground arith

close-IsTimed : (b : ExponentialBackoffCircuitBreaker) → IsTimed b → IsTimed (close b)
unfolding close clear_timeout emit
close-IsTimed b h = ground arith

success-IsTimed : (b : ExponentialBackoffCircuitBreaker) → IsTimed b → IsTimed (success b)
unfolding success clear_timeout emit
success-IsTimed b h = ground arith

on-IsTimed :
    (e : BreakerEvent) (l : ℕ) (b : ExponentialBackoffCircuitBreaker)
    → IsTimed b
    → IsTimed (on e l b)
unfolding on add_listener
on-IsTimed open_event l b h = h
on-IsTimed close_event l b h = h

dispose-IsTimed :
    (e : BreakerEvent) (l : ℕ) (b : ExponentialBackoffCircuitBreaker)
    → IsTimed b
    → IsTimed (dispose e l b)
unfolding dispose remove_listener
dispose-IsTimed open_event l b h = h
dispose-IsTimed close_event l b h = h

elapse-IsTimed : (d : ℕ) (b : ExponentialBackoffCircuitBreaker) → IsTimed b → IsTimed (elapse d b)
unfolding elapse is_pending any clear_timeout emit
elapse-IsTimed d b h = ground arith

step-IsTimed :
    (op : Operation) (b : ExponentialBackoffCircuitBreaker) → IsTimed b → IsTimed (step op b)
unfolding step
step-IsTimed error_op b h = error-IsTimed b h
step-IsTimed mega_error_op b h = mega_error-IsTimed b h
step-IsTimed success_op b h = success-IsTimed b h
step-IsTimed (on_op e l) b h = on-IsTimed e l b h
step-IsTimed (dispose_op e l) b h = dispose-IsTimed e l b h
step-IsTimed (elapse_op d) b h = elapse-IsTimed d b h

run-IsTimed :
    (ops : List Operation) (b : ExponentialBackoffCircuitBreaker) → IsTimed b → IsTimed (run ops b)
unfolding run
run-IsTimed [] b h = h
run-IsTimed (op ∷ ops) b h = run-IsTimed ops (step op b) (step-IsTimed op b h)

-- After any sequence of errors, successes, subscriptions and passing time from a new breaker, a
-- closed breaker has no pending timer, and an open one has exactly one, which `#timeoutId` names
-- and which is due within the maximal backoff.
pub run-new-IsTimed :
    (options : ExponentialBackoffCircuitBreakerOptions) (ops : List Operation)
    → IsTimed (run ops (new options))
unfolding new
run-new-IsTimed options ops = run-IsTimed ops (new options) refl

-- Of a breaker whose timers are in order, that is open with a timer due at `t.due`: after `d`
-- milliseconds with no call it is open exactly if that time has not come.
pub elapse-is_open :
    (d : ℕ) (b : ExponentialBackoffCircuitBreaker) {t : Timer}
    → is_open b ≡ true
    → b.timeout_id ≡ some t.id
    → b.host.timers ≡ t ∷ []
    → is_open (elapse d b) ≡ ltb (b.host.now + d) t.due
unfolding elapse is_pending any clear_timeout emit is_open
elapse-is_open d b o i e = ground arith

-- An open breaker that sees no call for its maximal backoff is closed.
pub elapse_max_closes :
    (b : ExponentialBackoffCircuitBreaker)
    → IsTimed b
    → is_open (elapse b.options.max_backoff_ms b) ≡ false
unfolding elapse is_pending any clear_timeout emit is_open
elapse_max_closes b h = ground arith

-- The backoff lies between the initial and the maximal one, and more errors never shorten it.
pub get_backoff_time_bounds :
    (o : ExponentialBackoffCircuitBreakerOptions) (n k : ℕ)
    → 1 ≤ o.backoff_multiplier
    → o.initial_backoff_ms ≤ o.max_backoff_ms
    → (o.initial_backoff_ms ≤ get_backoff_time o n)
      × (get_backoff_time o n ≤ o.max_backoff_ms)
      × (get_backoff_time o n ≤ get_backoff_time o (n + k))
unfolding get_backoff_time
get_backoff_time_bounds o n k h i =
    let p : 1 ≤ o.backoff_multiplier ^ (n - 1) = one-le-pow (n - 1) o.backoff_multiplier h in
    let q : o.backoff_multiplier ^ (n - 1) ≤ o.backoff_multiplier ^ (n + k - 1) =
      pow-le-pow_right h (omega arith) in
    let p' : o.initial_backoff_ms * 1 ≤ o.initial_backoff_ms * o.backoff_multiplier ^ (n - 1) =
      mul-le-mul_left o.initial_backoff_ms p in
    let q' : o.initial_backoff_ms * o.backoff_multiplier ^ (n - 1)
        ≤ o.initial_backoff_ms * o.backoff_multiplier ^ (n + k - 1) =
      mul-le-mul_left o.initial_backoff_ms q in
    omega arith

-- One failure after which nothing is called until the breaker is closed again.
abbrev pub failures : ExponentialBackoffCircuitBreakerOptions → ℕ → List Operation
failures o zero = []
failures o (suc k) = error_op ∷ elapse_op o.max_backoff_ms ∷ failures o k

abbrev Failed :
    ExponentialBackoffCircuitBreakerOptions → ℕ → ExponentialBackoffCircuitBreaker → Type 0
Failed o n c = (c.options ≡ o) × (c.state ≡ closed) × (c.error_count ≡ n) × IsTimed c

failure-Failed :
    (o : ExponentialBackoffCircuitBreakerOptions) (n : ℕ) (b : ExponentialBackoffCircuitBreaker)
    → Failed o n b
    → Failed o (n + 1) (elapse o.max_backoff_ms (error b))
unfolding error set_timeout emit get_backoff_time elapse is_pending any clear_timeout
failure-Failed o n b h = ground arith

failures_from :
    (o : ExponentialBackoffCircuitBreakerOptions) (k n : ℕ) (b : ExponentialBackoffCircuitBreaker)
    → Failed o n b
    → Failed o (n + k) (run (failures o k) b)
unfolding run step
failures_from o zero n b h = rw add-zero h
failures_from o (suc k) n b h =
    let e : n + suc k ≡ n + 1 + k = omega arith in
    rw e (failures_from o k (n + 1) (elapse o.max_backoff_ms (error b)) (failure-Failed o n b h))

error-timers :
    (o : ExponentialBackoffCircuitBreakerOptions) (n : ℕ) (b : ExponentialBackoffCircuitBreaker)
    → Failed o n b
    → (error b).host.timers
      ≡ record { id = b.host.next_id; due = b.host.now + get_backoff_time o (n + 1) } ∷ []
unfolding error set_timeout emit
error-timers o n b h = ground arith

-- Every failure that follows `k` failures with no success between them opens the breaker, and the
-- backoff is that of `k + 1` errors: the pending timer is due that much later.
pub failures-backoff :
    (o : ExponentialBackoffCircuitBreakerOptions) (k : ℕ)
    → let b = run (failures o k) (new o) in
      (is_open b ≡ false)
      × (is_open (error b) ≡ true)
      × ((error b).host.timers
          ≡ record { id = b.host.next_id; due = b.host.now + get_backoff_time o (k + 1) } ∷ [])
unfolding is_open new error
failures-backoff o k =
    let h : Failed o (0 + k) (run (failures o k) (new o)) =
      failures_from o k 0 (new o) (refl, refl, refl, refl) in
    let e : 0 + k ≡ k = omega arith in
    let h' : Failed o k (run (failures o k) (new o)) = rw e at h in
    (ground arith, ground arith, error-timers o k _ h')

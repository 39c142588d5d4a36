-- ===== src/CircuitBreaker/Fixed.antt =====
-- src/common/circuit_breaker/fixed_time_circuit_breaker.ts and the constants of circuit_breaker.ts.
pub mod Opening
use khulnasoft_lsp.Base.{
  ℕ, zero, suc, ◌+◌, Bool, true, false, List, [], ◌∷◌, Option, none, some, if◌then◌else◌, leb,
}
use khulnasoft_lsp.CircuitBreaker.Host.{
  CircuitBreakerState, opened, closed, Host, open_event, close_event, BreakerEvent, set_timeout,
  clear_timeout, emit, is_pending, due_ids, fresh_host, add_listener, remove_listener,
}

abbrev pub circuit_break_interval_ms : ℕ
circuit_break_interval_ms = 10000

abbrev pub max_errors_before_circuit_break : ℕ
max_errors_before_circuit_break = 4

pub record FixedTimeCircuitBreaker : Type 0 where
  pub max_errors_before_breaking : ℕ
  pub break_time_ms : ℕ
  pub state : CircuitBreakerState
  pub error_count : ℕ
  pub timeout_id : Option ℕ
  pub host : Host

unfoldable pub new : ℕ → ℕ → FixedTimeCircuitBreaker
new max_errors_before_breaking break_time_ms = record {
  max_errors_before_breaking = max_errors_before_breaking;
  break_time_ms = break_time_ms;
  state = closed;
  error_count = 0;
  timeout_id = none;
  host = fresh_host;
}

-- `#open`: it does not look at the state.
unfoldable pub do_open : FixedTimeCircuitBreaker → FixedTimeCircuitBreaker
do_open b = record b {
  state = opened;
  timeout_id = some b.host.next_id;
  host = emit open_event (set_timeout b.break_time_ms b.host);
}

unfoldable pub clear : Option ℕ → Host → Host
clear none h = h
clear (some i) h = clear_timeout i h

unfoldable pub close_from : CircuitBreakerState → FixedTimeCircuitBreaker → FixedTimeCircuitBreaker
close_from closed b = b
close_from opened b = record b {
  state = closed;
  host = emit close_event (clear b.timeout_id b.host);
}

-- `#close`
unfoldable pub close : FixedTimeCircuitBreaker → FixedTimeCircuitBreaker
unfolding close_from clear
close b = close_from b.state b

unfoldable pub error : FixedTimeCircuitBreaker → FixedTimeCircuitBreaker
unfolding do_open
error b =
    let b' = record b { error_count = b.error_count + 1 } in
    if leb b'.max_errors_before_breaking b'.error_count then do_open b' else b'

unfoldable pub success : FixedTimeCircuitBreaker → FixedTimeCircuitBreaker
unfolding close
success b = close (record b { error_count = 0 })

abbrev pub is_opened : CircuitBreakerState → Bool
is_opened opened = true
is_opened closed = false

unfoldable pub is_open : FixedTimeCircuitBreaker → Bool
is_open b = is_opened b.state

-- `onOpen`, `onClose`, and the `dispose` of what they return.
unfoldable pub on : BreakerEvent → ℕ → FixedTimeCircuitBreaker → FixedTimeCircuitBreaker
on e l b = record b { host = add_listener e l b.host }

unfoldable pub dispose : BreakerEvent → ℕ → FixedTimeCircuitBreaker → FixedTimeCircuitBreaker
dispose e l b = record b { host = remove_listener e l b.host }

-- The callback of a timer runs once, and only if the timer has not been cleared.
unfoldable pub fire : ℕ → FixedTimeCircuitBreaker → FixedTimeCircuitBreaker
unfolding close
fire i b =
    if is_pending i b.host.timers then close (record b { host = clear_timeout i b.host }) else b

unfoldable pub fire_all : List ℕ → FixedTimeCircuitBreaker → FixedTimeCircuitBreaker
fire_all [] b = b
fire_all (i ∷ is) b = fire_all is (fire i b)

-- `d` milliseconds pass: the callbacks of the timers that have become due run.
unfoldable pub elapse : ℕ → FixedTimeCircuitBreaker → FixedTimeCircuitBreaker
unfolding fire_all fire due_ids
elapse d b =
    let now = b.host.now + d in
    fire_all (due_ids now b.host.timers) (record b { host = record b.host { now = now } })

-- `n` calls of `error` in a row.
unfoldable pub errors : ℕ → FixedTimeCircuitBreaker → FixedTimeCircuitBreaker
errors zero b = b
errors (suc n) b = error (errors n b)

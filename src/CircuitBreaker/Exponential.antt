-- ===== src/CircuitBreaker/Exponential.antt =====
-- src/common/circuit_breaker/exponential_backoff_circuit_breaker.ts. The millisecond arithmetic is
-- exact: a product above 2^53 is above every configured maximum, and `Math.min` returns that.
pub mod Timing
use khulnasoft_lsp.Base.{
  ℕ, ◌+◌, ◌-◌, ◌*◌, ◌^◌, min, Bool, true, false, List, [], ◌∷◌, Option, none, some, if◌then◌else◌,
}
use khulnasoft_lsp.CircuitBreaker.Host.{
  CircuitBreakerState, opened, closed, Host, open_event, close_event, BreakerEvent, set_timeout,
  clear_timeout, emit, is_pending, due_ids, fresh_host, add_listener, remove_listener,
}

pub record ExponentialBackoffCircuitBreakerOptions : Type 0 where
  pub initial_backoff_ms : ℕ
  pub max_backoff_ms : ℕ
  pub backoff_multiplier : ℕ

abbrev pub default_options : ExponentialBackoffCircuitBreakerOptions
default_options = record {
  initial_backoff_ms = 1000;
  max_backoff_ms = 60000;
  backoff_multiplier = 2;
}

pub record ExponentialBackoffCircuitBreaker : Type 0 where
  pub options : ExponentialBackoffCircuitBreakerOptions
  pub state : CircuitBreakerState
  pub error_count : ℕ
  pub timeout_id : Option ℕ
  pub host : Host

unfoldable pub new : ExponentialBackoffCircuitBreakerOptions → ExponentialBackoffCircuitBreaker
new options = record {
  options = options;
  state = closed;
  error_count = 0;
  timeout_id = none;
  host = fresh_host;
}

-- `#getBackoffTime`. It is called with `error_count` at least 1.
unfoldable pub get_backoff_time : ExponentialBackoffCircuitBreakerOptions → ℕ → ℕ
get_backoff_time o error_count =
    min (o.initial_backoff_ms * o.backoff_multiplier ^ (error_count - 1)) o.max_backoff_ms

-- `#open`
unfoldable pub open_from :
    CircuitBreakerState → ExponentialBackoffCircuitBreaker → ExponentialBackoffCircuitBreaker
open_from opened b = b
open_from closed b = record b {
  state = opened;
  timeout_id = some b.host.next_id;
  host = emit open_event (set_timeout (get_backoff_time b.options b.error_count) b.host);
}

unfoldable pub clear : Option ℕ → Host → Host
clear none h = h
clear (some i) h = clear_timeout i h

-- `#close`
unfoldable pub close_from :
    CircuitBreakerState → ExponentialBackoffCircuitBreaker → ExponentialBackoffCircuitBreaker
close_from closed b = b
close_from opened b = record b {
  state = closed;
  host = emit close_event (clear b.timeout_id b.host);
}

unfoldable pub close : ExponentialBackoffCircuitBreaker → ExponentialBackoffCircuitBreaker
unfolding close_from clear
close b = close_from b.state b

unfoldable pub error : ExponentialBackoffCircuitBreaker → ExponentialBackoffCircuitBreaker
unfolding open_from
error b = let b' = record b { error_count = b.error_count + 1 } in open_from b'.state b'

unfoldable pub mega_error : ExponentialBackoffCircuitBreaker → ExponentialBackoffCircuitBreaker
unfolding open_from
mega_error b = let b' = record b { error_count = b.error_count + 3 } in open_from b'.state b'

unfoldable pub success : ExponentialBackoffCircuitBreaker → ExponentialBackoffCircuitBreaker
unfolding close
success b = close (record b { error_count = 0 })

abbrev pub is_opened : CircuitBreakerState → Bool
is_opened opened = true
is_opened closed = false

unfoldable pub is_open : ExponentialBackoffCircuitBreaker → Bool
is_open b = is_opened b.state

-- `onOpen`, `onClose`, and the `dispose` of what they return.
unfoldable pub on :
    BreakerEvent → ℕ → ExponentialBackoffCircuitBreaker → ExponentialBackoffCircuitBreaker
on e l b = record b { host = add_listener e l b.host }

unfoldable pub dispose :
    BreakerEvent → ℕ → ExponentialBackoffCircuitBreaker → ExponentialBackoffCircuitBreaker
dispose e l b = record b { host = remove_listener e l b.host }

-- The callback of a timer runs once, and only if the timer has not been cleared.
unfoldable pub fire : ℕ → ExponentialBackoffCircuitBreaker → ExponentialBackoffCircuitBreaker
unfolding close
fire i b =
    if is_pending i b.host.timers then close (record b { host = clear_timeout i b.host }) else b

unfoldable pub fire_all :
    List ℕ → ExponentialBackoffCircuitBreaker → ExponentialBackoffCircuitBreaker
fire_all [] b = b
fire_all (i ∷ is) b = fire_all is (fire i b)

-- `d` milliseconds pass: the callbacks of the timers that have become due run.
unfoldable pub elapse : ℕ → ExponentialBackoffCircuitBreaker → ExponentialBackoffCircuitBreaker
unfolding fire_all fire due_ids
elapse d b =
    let now = b.host.now + d in
    fire_all (due_ids now b.host.timers) (record b { host = record b.host { now = now } })

pub data Operation : Type 0 where
  error_op mega_error_op success_op : Operation
  on_op dispose_op : BreakerEvent → ℕ → Operation
  elapse_op : ℕ → Operation

unfoldable pub step :
    Operation → ExponentialBackoffCircuitBreaker → ExponentialBackoffCircuitBreaker
step error_op b = error b
step mega_error_op b = mega_error b
step success_op b = success b
step (on_op e l) b = on e l b
step (dispose_op e l) b = dispose e l b
step (elapse_op d) b = elapse d b

unfoldable pub run :
    List Operation → ExponentialBackoffCircuitBreaker → ExponentialBackoffCircuitBreaker
run [] b = b
run (op ∷ ops) b = run ops (step op b)

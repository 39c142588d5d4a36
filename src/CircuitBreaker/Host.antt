-- ===== src/CircuitBreaker/Host.antt =====
-- What the circuit breakers use of Node: `setTimeout`, `clearTimeout` and an `EventEmitter` with the
-- events 'open' and 'close'. Also `CircuitBreakerState` (circuit_breaker.ts).
use khulnasoft_lsp.Base.{ℕ, ◌+◌, Bool, List, [], ◌∷◌, ◌++◌, map, leb, eqb, if◌then◌else◌, any}

pub data CircuitBreakerState : Type 0 where
  opened closed : CircuitBreakerState

pub data BreakerEvent : Type 0 where
  open_event close_event : BreakerEvent

pub record Timer : Type 0 where
  pub id : ℕ
  pub due : ℕ

-- `calls` lists the calls of listeners, oldest first.
pub record Host : Type 0 where
  pub now : ℕ
  pub next_id : ℕ
  pub timers : List Timer
  pub open_listeners : List ℕ
  pub close_listeners : List ℕ
  pub calls : List (BreakerEvent × ℕ)

abbrev pub fresh_host : Host
fresh_host = record {
  now = 0;
  next_id = 0;
  timers = [];
  open_listeners = [];
  close_listeners = [];
  calls = [];
}

-- `setTimeout(callback, delay)`: the host with the timer pending. Its id is the old `next_id`.
unfoldable pub set_timeout : ℕ → Host → Host
set_timeout delay h = record h {
  next_id = h.next_id + 1;
  timers = record { id = h.next_id; due = h.now + delay } ∷ h.timers;
}

unfoldable pub without_timer : ℕ → List Timer → List Timer
without_timer i [] = []
without_timer i (t ∷ ts) = if eqb t.id i then without_timer i ts else t ∷ without_timer i ts

-- `clearTimeout(id)`
unfoldable pub clear_timeout : ℕ → Host → Host
unfolding without_timer
clear_timeout i h = record h { timers = without_timer i h.timers }

unfoldable pub listeners : BreakerEvent → Host → List ℕ
listeners open_event h = h.open_listeners
listeners close_event h = h.close_listeners

-- `emit(event)` calls the listeners of the event in the order of their registration.
unfoldable pub emit : BreakerEvent → Host → Host
unfolding listeners
emit e h = record h { calls = h.calls ++ map (λ l. (e, l)) (listeners e h) }

-- `removeListener(event, l)` takes out the most recently added instance of `l`.
unfoldable pub remove_last : ℕ → List ℕ → List ℕ
remove_last l [] = []
remove_last l (x ∷ xs) =
    let rest = x ∷ remove_last l xs in if any (eqb l) xs then rest else if eqb l x then xs else rest

unfoldable pub add_listener : BreakerEvent → ℕ → Host → Host
add_listener open_event l h = record h { open_listeners = h.open_listeners ++ l ∷ [] }
add_listener close_event l h = record h { close_listeners = h.close_listeners ++ l ∷ [] }

unfoldable pub remove_listener : BreakerEvent → ℕ → Host → Host
remove_listener open_event l h = record h { open_listeners = remove_last l h.open_listeners }
remove_listener close_event l h = record h { close_listeners = remove_last l h.close_listeners }

-- The ids of the timers that are due at a time.
unfoldable pub due_ids : ℕ → List Timer → List ℕ
due_ids time [] = []
due_ids time (t ∷ ts) = if leb t.due time then t.id ∷ due_ids time ts else due_ids time ts

unfoldable pub is_pending : ℕ → List Timer → Bool
is_pending i ts = any (λ (t : Timer). eqb t.id i) ts

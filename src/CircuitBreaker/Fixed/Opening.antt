-- ===== src/CircuitBreaker/Fixed/Opening.antt =====
-- When the fixed-time breaker opens and closes, and the timers that it leaves behind.
use khulnasoft_lsp.Base.{
  ℕ, zero, suc, ◌+◌, ◌-◌, ◌≤◌, ◌<◌, false, List, [], ◌∷◌, ◌≡◌, refl, arith, leb, length, All,
}
use khulnasoft_lsp.CircuitBreaker.Host.{Timer, set_timeout, clear_timeout, without_timer, emit}
use khulnasoft_lsp.CircuitBreaker.Fixed.{
  FixedTimeCircuitBreaker, new, error, success, is_open, errors,
}

-- The ids of pending timers are below `next_id`, so a new timer has an id of its own.
abbrev AllOld : ℕ → List Timer → Type 0
AllOld n ts = All (λ (t : Timer). t.id < n) ts

AllOld-suc : (n : ℕ) (ts : List Timer) → AllOld n ts → AllOld (n + 1) ts
AllOld-suc n [] h = tt
AllOld-suc n (t ∷ ts) h = (omega arith, AllOld-suc n ts h.1)

without_timer_old : (n : ℕ) (ts : List Timer) → AllOld n ts → without_timer n ts ≡ ts
unfolding without_timer
without_timer_old n [] h = refl
without_timer_old n (t ∷ ts) h = ground (arith, without_timer_old n ts h.1)

abbrev Counted : ℕ → ℕ → ℕ → FixedTimeCircuitBreaker → Type 0
Counted m d n b =
    (b.max_errors_before_breaking ≡ m)
    × (b.break_time_ms ≡ d)
    × (b.error_count ≡ n)
    × (is_open b ≡ leb m n)
    × (length b.host.timers ≡ n + 1 - m)
    × AllOld b.host.next_id b.host.timers

error-Counted :
    (m d n : ℕ) (b : FixedTimeCircuitBreaker)
    → 1 ≤ m
    → Counted m d n b
    → Counted m d (suc n) (error b)
unfolding error is_open set_timeout emit
error-Counted m d n b p h = ground (arith, AllOld-suc b.host.next_id b.host.timers)

errors-Counted : (m d n : ℕ) → 1 ≤ m → Counted m d n (errors n (new m d))
unfolding errors new is_open
errors-Counted m d zero h = ground arith
errors-Counted m d (suc n) h = error-Counted m d n _ h (errors-Counted m d n h)

-- With a threshold of at least 1, `n` errors in a row open a new breaker exactly if `n` reaches
-- the threshold.
pub errors-is_open : (m d n : ℕ) → 1 ≤ m → is_open (errors n (new m d)) ≡ leb m n
errors-is_open m d n h = let c = errors-Counted m d n h in c.3

success_after_error :
    (m d n : ℕ) (b : FixedTimeCircuitBreaker)
    → m ≤ suc n
    → Counted m d n b
    → let c = success (error b) in (is_open c ≡ false) × (length c.host.timers ≡ suc n - m)
unfolding error success is_open set_timeout clear_timeout emit
success_after_error m d n b k h = ground (arith, without_timer_old b.host.next_id b.host.timers)

-- Each error from the threshold on starts a timer, and `success` clears only the last: after `n`
-- errors (the threshold `m` or more) and a success the breaker is closed, and the other `n - m`
-- timers are still pending.
pub success-stale_timers :
    (m d n : ℕ)
    → 1 ≤ m
    → m ≤ n
    → let b = success (errors n (new m d)) in (is_open b ≡ false) × (length b.host.timers ≡ n - m)
unfolding errors
success-stale_timers m d zero h k = absurd (omega arith)
success-stale_timers m d (suc n) h k =
    success_after_error m d n (errors n (new m d)) k (errors-Counted m d n h)

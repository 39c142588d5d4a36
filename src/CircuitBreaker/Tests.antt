-- ===== src/CircuitBreaker/Tests.antt =====
-- The breakers at concrete inputs.
use khulnasoft_lsp.Base.{◌+◌, true, false, [], ◌∷◌, ◌≡◌, refl}
use khulnasoft_lsp.CircuitBreaker.Exponential.{
  ExponentialBackoffCircuitBreaker, default_options, new, error, is_open, run, error_op, elapse_op,
  get_backoff_time,
}
use khulnasoft_lsp.CircuitBreaker.Exponential.Timing.{
  IsTimed, run-new-IsTimed, failures, failures-backoff,
}

run-new-IsTimed_example : IsTimed (run (error_op ∷ elapse_op 200 ∷ []) (new default_options))
run-new-IsTimed_example = run-new-IsTimed default_options (error_op ∷ elapse_op 200 ∷ [])

abbrev failed_once : ExponentialBackoffCircuitBreaker
failed_once = run (error_op ∷ []) (new default_options)

failures-backoff_example :
    let b = run (failures default_options 2) (new default_options) in
    (is_open b ≡ false)
    × (is_open (error b) ≡ true)
    × ((error b).host.timers
        ≡ record {
          id = b.host.next_id;
          due = b.host.now + get_backoff_time default_options (2 + 1);
        }
          ∷ [])
failures-backoff_example = failures-backoff default_options 2

-- 1, 2, 4, ... seconds, and a minute from the seventh error on.
backoff_sequence :
    (get_backoff_time default_options 1 ≡ 1000)
    × (get_backoff_time default_options 2 ≡ 2000)
    × (get_backoff_time default_options 6 ≡ 32000)
    × (get_backoff_time default_options 7 ≡ 60000)
unfolding get_backoff_time
backoff_sequence = (refl, refl, refl, refl)

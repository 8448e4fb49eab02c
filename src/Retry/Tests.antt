-- ===== src/Retry/Tests.antt =====
-- An operation that fails twice.
use market_x_backend.Common.{ℕ, zero, suc, ◌+◌, ◌*◌, ◌/◌, ◌≤◌, false, [], ◌∷◌, ◌≡◌, refl, arith}
use market_x_backend.Common.Outcome.{Outcome, ok, err, network, World}
use market_x_backend.Retry.{
  RetryConfig, RetryEvent, final_config, get_config_for_notification_type, email, calculate_backoff,
  retry_loop, execute_with_retry, slept, started, succeeded, attempt_failed,
}
use market_x_backend.Retry.Delays.{Random, slept_ms, execute_with_retry_waits}
use market_x_backend.Retry.Attempts.{execute_with_retry-tries}

-- The state is how many calls still fail; the answer how many were left then.
abbrev flaky : ℕ → Outcome ℕ × ℕ
flaky zero = (ok 0, 0)
flaky (suc n) = (err (network "timeout"), n)

abbrev no_jitter : RetryConfig
no_jitter = record (final_config (get_config_for_notification_type email)) { use_jitter = false }

abbrev jittered : RetryConfig
jittered = final_config (get_config_for_notification_type email)

abbrev halves : ℕ → ℕ → ℕ
halves k b = b / 2

abbrev two_failures : World ℕ RetryEvent
two_failures = record { rows = 2; emitted = [] }

run_events :
    (execute_with_retry halves no_jitter flaky two_failures).1.emitted
    ≡ started 5 (network "timeout")
      ∷ slept 2000
      ∷ attempt_failed 1 5 (network "timeout") 4000
      ∷ slept 4000
      ∷ succeeded 2 3
      ∷ []
unfolding execute_with_retry retry_loop calculate_backoff
run_events = refl

execute_with_retry-tries_example :
    let (r, w') = execute_with_retry halves jittered flaky two_failures in
    ◌≡◌ {A = Outcome ℕ × ℕ} (r.result, w'.rows) (ok 0, 0)
execute_with_retry-tries_example = execute_with_retry-tries halves jittered flaky two_failures

halves-Random : Random halves
halves-Random k b = omega arith

execute_with_retry_waits_example :
    slept_ms (execute_with_retry halves jittered flaky two_failures).1.emitted ≤ 0 + 5 * 60000
execute_with_retry_waits_example =
    execute_with_retry_waits halves jittered flaky halves-Random two_failures

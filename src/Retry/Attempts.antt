-- ===== src/Retry/Attempts.antt =====
-- How often an operation is tried, and what comes of it.
use market_x_backend.Common.{
  ℕ, zero, suc, ◌+◌, some, List, [], ◌∷◌, length, length-append, ◌≡◌, refl, arith, inl, inr,
}
use market_x_backend.Common.Outcome.{Outcome, ok, err, Exception, World, Outcome-cases}
use market_x_backend.Retry.{
  RetryConfig, RetryAttempt, RetryEvent, started, delay_of, sent, with_attempt, failed_once,
  retry_loop, execute_with_retry,
}

-- An operation that is tried until it returns, at most `n` times more than once.
abbrev pub tries : {S T : Type 0} → (S → Outcome T × S) → ℕ → Outcome T × S → Outcome T × S
tries operation n (ok t, s) = (ok t, s)
tries operation zero (err e, s) = (err e, s)
tries operation (suc n) (err e, s) = tries operation n (operation s)

module _ {S T : Type 0} (draw : ℕ → ℕ → ℕ) (c : RetryConfig) (operation : S → Outcome T × S) where
  retry_loop-tries :
      (left attempt : ℕ) (attempts : List RetryAttempt) (last : Exception) (w : World S RetryEvent)
      → let (r, w') = retry_loop draw c operation left attempt attempts last w in
        (r.result, w'.rows) ≡ tries operation left (err last, w.rows)
  unfolding retry_loop
  retry_loop-tries zero attempt attempts last w = refl
  retry_loop-tries (suc left) attempt attempts last w = elim (Outcome-cases (operation w.rows)) [
    | inl (t, s, answered) ↦ ground arith
    | inr (e, s, threw) ↦ ground (
      arith,
      retry_loop-tries left (suc attempt) (with_attempt draw c operation attempt (some e) attempts)
          e (failed_once draw c operation attempt e s w),
    )
  ]

  -- The answer of a call, and what its operation has done, are those of trying the operation until it
  -- returns, at most `maxRetries` times after the first: no call is made after one that returned, and
  -- an error is the error of the last one.
  pub execute_with_retry-tries :
      (w : World S RetryEvent)
      → let (r, w') = execute_with_retry draw c operation w in
        (r.result, w'.rows) ≡ tries operation c.max_retries (operation w.rows)
  unfolding execute_with_retry
  execute_with_retry-tries w = elim (Outcome-cases (operation w.rows)) [
    | inl (t, s, answered) ↦ ground arith
    | inr (e, s, threw) ↦ ground (
      arith,
      retry_loop-tries c.max_retries 1
          (record { attempt_number = 0; delay_ms = 0; error = some e } ∷ []) e
          (sent draw c operation (record w { rows = s }) (started c.max_retries e)),
    )
  ]

  retry_loop_counts :
      (left attempt : ℕ) (attempts : List RetryAttempt) (last e : Exception)
      (w : World S RetryEvent)
      → (retry_loop draw c operation left attempt attempts last w).0.result ≡ err e
      → length (retry_loop draw c operation left attempt attempts last w).0.attempts
        ≡ length attempts + left
  unfolding retry_loop
  retry_loop_counts zero attempt attempts last e w failed = omega arith
  retry_loop_counts (suc left) attempt attempts last e w failed =
      elim (Outcome-cases (operation w.rows)) [
        | inl (t, s, answered) ↦ absurd (ground arith)
        | inr (x, s, threw) ↦
            let tried = with_attempt draw c operation attempt (some x) attempts in
            ground (
              arith,
              length-append attempts (
                  record {
                    attempt_number = attempt;
                    delay_ms = delay_of draw c operation attempt;
                    error = some x;
                  }
                  ∷ []),
              retry_loop_counts left (suc attempt) tried x e
                  (failed_once draw c operation attempt x s w),
            )
      ]

  -- A call that fails has tried the operation once and then as often as it may retry, and lists every
  -- attempt.
  pub execute_with_retry_counts :
      (w : World S RetryEvent) (e : Exception)
      → (execute_with_retry draw c operation w).0.result ≡ err e
      → length (execute_with_retry draw c operation w).0.attempts ≡ c.max_retries + 1
  unfolding execute_with_retry
  execute_with_retry_counts w e failed = elim (Outcome-cases (operation w.rows)) [
    | inl (t, s, answered) ↦ absurd (ground arith)
    | inr (x, s, threw) ↦ ground (
      arith,
      retry_loop_counts c.max_retries 1
          (record { attempt_number = 0; delay_ms = 0; error = some x } ∷ []) x e
          (sent draw c operation (record w { rows = s }) (started c.max_retries x)),
    )
  ]

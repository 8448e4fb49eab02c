-- ===== src/Retry/Delays.antt =====
-- How long a retry waits.
use market_x_backend.Common.{
  ℕ, zero, suc, ◌+◌, ◌*◌, ◌-◌, ◌≤◌, none, some, List, [], ◌∷◌, ◌++◌, ◌≡◌, arith, length, inl, inr,
}
use market_x_backend.Common.Outcome.{Outcome, Exception, World, Outcome-cases}
use market_x_backend.Retry.{
  RetryConfig, RetryAttempt, RetryEvent, slept, started, succeeded, attempt_failed, exhausted,
  capped_delay, calculate_backoff, sent, next_retry_in_ms, delay_of, with_attempt, failed_once,
  retry_loop, execute_with_retry,
}

-- `Math.floor(Math.random() * b)` is at most `b`.
abbrev pub Random : (ℕ → ℕ → ℕ) → Type 0
Random draw = (k b : ℕ) → draw k b ≤ b

capped_delay_bound : (c : RetryConfig) (attempt : ℕ) → capped_delay c attempt ≤ c.max_delay_ms
capped_delay_bound c attempt = ground arith

-- A delay is no longer than the longest, with the jitter and without.
pub calculate_backoff_bound :
    (draw : ℕ → ℕ → ℕ) (c : RetryConfig) (k attempt : ℕ)
    → Random draw
    → calculate_backoff draw c k attempt ≤ c.max_delay_ms
unfolding calculate_backoff
calculate_backoff_bound draw c k attempt random =
    ground (arith, random k (capped_delay c attempt), capped_delay_bound c attempt)

-- The time that the sleeps among some events take together.
abbrev pub slept_ms : List RetryEvent → ℕ
slept_ms [] = 0
slept_ms (slept ms ∷ es) = ms + slept_ms es
slept_ms (e ∷ es) = slept_ms es

slept_ms-append : (es fs : List RetryEvent) → slept_ms (es ++ fs) ≡ slept_ms es + slept_ms fs
slept_ms-append [] fs = omega arith
slept_ms-append (slept ms ∷ es) fs = omega (arith, slept_ms-append es fs)
slept_ms-append (e ∷ es) fs = slept_ms-append es fs

module _ {S T : Type 0} (draw : ℕ → ℕ → ℕ) (c : RetryConfig) (operation : S → Outcome T × S)
    (random : Random draw) where
  retry_loop_waits :
      (left attempt : ℕ) (attempts : List RetryAttempt) (last : Exception) (w : World S RetryEvent)
      → slept_ms (retry_loop draw c operation left attempt attempts last w).1.emitted
        ≤ slept_ms w.emitted + left * c.max_delay_ms
  unfolding retry_loop
  retry_loop_waits zero attempt attempts last w =
      omega (arith, slept_ms-append w.emitted (exhausted (length attempts) last ∷ []))
  retry_loop_waits (suc left) attempt attempts last w =
      let d = delay_of draw c operation attempt in
      let short : d ≤ c.max_delay_ms =
        calculate_backoff_bound draw c (2 * attempt - 2) attempt random in
      let asleep = sent draw c operation w (slept d) in
      let fell : slept_ms asleep.emitted ≡ slept_ms w.emitted + d =
        omega (arith, slept_ms-append w.emitted (slept d ∷ [])) in
      elim (Outcome-cases (operation w.rows)) [
        | inl (t, s, answered) ↦
            let e =
              succeeded attempt (length (with_attempt draw c operation attempt none attempts)) in
            let woke : slept_ms (asleep.emitted ++ e ∷ []) ≡ slept_ms asleep.emitted =
              omega (arith, slept_ms-append asleep.emitted (e ∷ [])) in
            ground (arith, short, fell, woke)
        | inr (x, s, threw) ↦
            let e =
              attempt_failed attempt c.max_retries x (next_retry_in_ms draw c operation attempt) in
            let woke : slept_ms (asleep.emitted ++ e ∷ []) ≡ slept_ms asleep.emitted =
              omega (arith, slept_ms-append asleep.emitted (e ∷ [])) in
            let rest =
              retry_loop_waits left (suc attempt)
                (with_attempt draw c operation attempt (some x) attempts) x
                (failed_once draw c operation attempt x s w) in
            ground (arith, short, fell, woke, rest)
      ]

  -- A call waits no longer in all than its number of retries times its longest delay, whatever
  -- numbers are drawn, where `Math.floor(Math.random() * b)` is at most `b`.
  pub execute_with_retry_waits :
      (w : World S RetryEvent)
      → slept_ms (execute_with_retry draw c operation w).1.emitted
        ≤ slept_ms w.emitted + c.max_retries * c.max_delay_ms
  unfolding execute_with_retry
  execute_with_retry_waits w = elim (Outcome-cases (operation w.rows)) [
    | inl (t, s, answered) ↦ ground arith
    | inr (e, s, threw) ↦
        let w₁ = sent draw c operation (record w { rows = s }) (started c.max_retries e) in
        let first_failed : List RetryAttempt =
          record { attempt_number = 0; delay_ms = 0; error = some e } ∷ [] in
        let began : slept_ms w₁.emitted ≡ slept_ms w.emitted =
          omega (arith, slept_ms-append w.emitted (started c.max_retries e ∷ [])) in
        ground (arith, began, retry_loop_waits c.max_retries 1 first_failed e w₁)
  ]

-- ===== src/Retry.antt =====
-- src/notifications/retry-strategy.service.ts: an operation is tried again after growing delays.
-- The operation acts on a state of its own. The random numbers are drawn from a sequence: `draw k b`
-- is the `k`-th `Math.floor(Math.random() * b)`. A sleep is among what is sent out. The clock, which
-- dates the attempts and measures the whole, is left out, and the multiplier is a whole number.
pub mod Delays
pub mod Attempts
pub mod Tests
use market_x_backend.Common.{
  ℕ, zero, suc, ◌+◌, ◌*◌, ◌-◌, ◌^◌, Bool, true, false, Option, none, some, List, [], ◌∷◌, ◌++◌,
  length, leb, ltb, if◌then◌else◌, from_option,
}
use market_x_backend.Common.Outcome.{Outcome, ok, err, Exception, World}

pub record RetryConfig : Type 0 where
  pub max_retries : ℕ
  pub initial_delay_ms : ℕ
  pub max_delay_ms : ℕ
  pub backoff_multiplier : ℕ
  pub use_jitter : Bool

-- `Partial<RetryConfig>`
pub record RetryOptions : Type 0 where
  pub max_retries : Option ℕ
  pub initial_delay_ms : Option ℕ
  pub max_delay_ms : Option ℕ
  pub backoff_multiplier : Option ℕ
  pub use_jitter : Option Bool

abbrev pub default_retry_config : RetryConfig
default_retry_config = record {
  max_retries = 3;
  initial_delay_ms = 1000;
  max_delay_ms = 30000;
  backoff_multiplier = 2;
  use_jitter = true;
}

-- `{ ...DEFAULT_RETRY_CONFIG, ...config }`
abbrev pub final_config : RetryOptions → RetryConfig
final_config o = record {
  max_retries = from_option default_retry_config.max_retries o.max_retries;
  initial_delay_ms = from_option default_retry_config.initial_delay_ms o.initial_delay_ms;
  max_delay_ms = from_option default_retry_config.max_delay_ms o.max_delay_ms;
  backoff_multiplier = from_option default_retry_config.backoff_multiplier o.backoff_multiplier;
  use_jitter = from_option default_retry_config.use_jitter o.use_jitter;
}

pub data NotificationType : Type 0 where
  email push sms other : NotificationType

abbrev pub get_config_for_notification_type : NotificationType → RetryOptions
get_config_for_notification_type email = record {
  max_retries = some 5;
  initial_delay_ms = some 2000;
  max_delay_ms = some 60000;
  backoff_multiplier = none;
  use_jitter = none;
}
get_config_for_notification_type push = record {
  max_retries = some 3;
  initial_delay_ms = some 1000;
  max_delay_ms = some 30000;
  backoff_multiplier = none;
  use_jitter = none;
}
get_config_for_notification_type sms = record {
  max_retries = some 4;
  initial_delay_ms = some 3000;
  max_delay_ms = some 45000;
  backoff_multiplier = none;
  use_jitter = none;
}
get_config_for_notification_type other = record {
  max_retries = some default_retry_config.max_retries;
  initial_delay_ms = some default_retry_config.initial_delay_ms;
  max_delay_ms = some default_retry_config.max_delay_ms;
  backoff_multiplier = some default_retry_config.backoff_multiplier;
  use_jitter = some default_retry_config.use_jitter;
}

pub record RetryAttempt : Type 0 where
  pub attempt_number : ℕ
  pub delay_ms : ℕ
  pub error : Option Exception

pub record RetryResult (T : Type 0) : Type 0 where
  pub result : Outcome T
  pub attempts : List RetryAttempt

pub data RetryEvent : Type 0 where
  started : ℕ → Exception → RetryEvent
  slept : ℕ → RetryEvent
  succeeded : ℕ → ℕ → RetryEvent
  attempt_failed : ℕ → ℕ → Exception → ℕ → RetryEvent
  exhausted : ℕ → Exception → RetryEvent

-- `Math.min`
abbrev pub min_ℕ : ℕ → ℕ → ℕ
min_ℕ a b = if leb a b then a else b

abbrev pub capped_delay : RetryConfig → ℕ → ℕ
capped_delay c attempt =
    min_ℕ (c.initial_delay_ms * c.backoff_multiplier ^ (attempt - 1)) c.max_delay_ms

-- `k` numbers have been drawn before.
unfoldable pub calculate_backoff : (ℕ → ℕ → ℕ) → RetryConfig → ℕ → ℕ → ℕ
calculate_backoff draw c k attempt =
    if c.use_jitter then draw k (capped_delay c attempt) else capped_delay c attempt

module _ {S T : Type 0} (draw : ℕ → ℕ → ℕ) (c : RetryConfig) (operation : S → Outcome T × S) where
  abbrev pub sent : World S RetryEvent → RetryEvent → World S RetryEvent
  sent w e = record w { emitted = w.emitted ++ e ∷ [] }

  -- `nextRetryInMs`: a delay of its own, computed anew; an attempt draws two numbers.
  abbrev pub next_retry_in_ms : ℕ → ℕ
  next_retry_in_ms attempt =
      if ltb attempt c.max_retries
      then calculate_backoff draw c (2 * attempt - 1) (suc attempt)
      else 0

  abbrev pub delay_of : ℕ → ℕ
  delay_of attempt = calculate_backoff draw c (2 * attempt - 2) attempt

  abbrev pub with_attempt : ℕ → Option Exception → List RetryAttempt → List RetryAttempt
  with_attempt attempt error attempts =
      attempts
      ++ record { attempt_number = attempt; delay_ms = delay_of attempt; error = error } ∷ []

  abbrev pub failed_once : ℕ → Exception → S → World S RetryEvent → World S RetryEvent
  failed_once attempt e s w =
      sent (record (sent w (slept (delay_of attempt))) { rows = s })
        (attempt_failed attempt c.max_retries e (next_retry_in_ms attempt))

  -- The loop: `left` attempts are left, from number `attempt` on, and the last error was `last`.
  unfoldable pub retry_loop :
      ℕ
      → ℕ
      → List RetryAttempt
      → Exception
      → World S RetryEvent
      → RetryResult T × World S RetryEvent
  retry_loop zero attempt attempts last w =
      (record { result = err last; attempts = attempts }, sent w (exhausted (length attempts) last))
  retry_loop (suc left) attempt attempts last w =
      let asleep = sent w (slept (delay_of attempt)) in
      let (answer, s) = operation asleep.rows in
      elim answer [
        | ok t ↦
            let tried = with_attempt attempt none attempts in
            (
              record { result = ok t; attempts = tried },
              sent (record asleep { rows = s }) (succeeded attempt (length tried)),
            )
        | err e ↦
            retry_loop left (suc attempt) (with_attempt attempt (some e) attempts) e
              (failed_once attempt e s w)
      ]

  unfoldable pub execute_with_retry : World S RetryEvent → RetryResult T × World S RetryEvent
  execute_with_retry w =
      let (answer, s) = operation w.rows in
      elim answer [
        | ok t ↦ (record { result = ok t; attempts = [] }, record w { rows = s })
        | err e ↦
            retry_loop c.max_retries 1
              (record { attempt_number = 0; delay_ms = 0; error = some e } ∷ []) e
              (sent (record w { rows = s }) (started c.max_retries e))
      ]

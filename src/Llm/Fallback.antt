-- ===== src/Llm/Fallback.antt =====
-- internal/llm/fallback.go, the type FallbackClient: the models are tried in order, each behind
-- its circuit. A client keeps no state between calls, so the clients are their number, and what a
-- client answers comes with the turn that asks it. Model names only go to the log.
pub mod Round
pub mod Order
pub mod Effect
use cryptofunk.Prelude.{
  ℕ, zero, suc, ◌+◌, ℤ, pos, negsuc, String, Bool, true, false, List, [], ◌∷◌, ltb, leb, ◌==◌,
  if◌then◌else◌, length, Result, ok, err,
}
use cryptofunk.Llm.Client.{
  ChatResponse, CallError, no_error, all_models_failed, all_models_failed_after_retries, Outcome,
  Gate, Trial, complete, complete_with_retry, system_answer,
}
use cryptofunk.Llm.Breaker.{
  CircuitBreaker, CircuitBreakerConfig, CircuitBreakerStatus, default_circuit_breaker_config,
  new_circuit_breaker, is_open, record_success, record_failure, reset, get_all_status,
}

pub record FallbackClient : Type 0 where
  pub clients : ℕ
  pub circuit_breaker : CircuitBreaker

-- `NewFallbackClient` for a primary model and so many fallbacks: a failure threshold of 0 stands
-- for a configuration that was left out.
unfoldable pub new_fallback_client : ℕ → CircuitBreakerConfig → FallbackClient
new_fallback_client fallbacks config =
    let clients = suc fallbacks in
    record {
      clients = clients;
      circuit_breaker =
          new_circuit_breaker clients
            (if config.failure_threshold == 0 then default_circuit_breaker_config else config);
    }

-- The turn of one model: the clock when its circuit is asked, what its client answers if it is
-- called, and the clock when that is recorded.
pub record Turn : Type 0 where
  pub asked_at : ℕ
  pub outcome : Outcome
  pub recorded_at : ℕ

-- The loop of `Complete` and `CompleteWithRetry` from the model `i` on. The test whether an error
-- is retryable, in `Complete`, does the same on both sides: the next model follows.
unfoldable pub fail_over : ℕ → List Turn → CallError → CircuitBreaker → CircuitBreaker × Outcome
fail_over i [] last_err cb = (cb, err last_err)
fail_over i (turn ∷ turns) last_err cb =
    let (asked, blocked) = is_open turn.asked_at (pos i) cb in
    elim blocked [
      | true ↦ fail_over (suc i) turns last_err asked
      | false ↦ elim turn.outcome [
        | ok response ↦ (record_success turn.recorded_at (pos i) asked, ok response)
        | err e ↦ fail_over (suc i) turns e (record_failure turn.recorded_at (pos i) asked)
      ]
    ]

abbrev pub wrap : (CallError → CallError) → CircuitBreaker × Outcome → CircuitBreaker × Outcome
wrap f (cb, ok response) = (cb, ok response)
wrap f (cb, err e) = (cb, err (f e))

-- One call by a client, and the clock around it.
pub record Call : Type 0 where
  pub asked_at : ℕ
  pub gate : Gate
  pub recorded_at : ℕ

abbrev pub turns_of : List Call → List Turn
turns_of [] = []
turns_of (c ∷ cs) =
    record { asked_at = c.asked_at; outcome = complete c.gate; recorded_at = c.recorded_at }
    ∷ turns_of cs

-- `Complete`; the list has one call for each client, in order.
unfoldable pub complete_any : List Call → CircuitBreaker → CircuitBreaker × Outcome
complete_any calls cb = wrap all_models_failed (fail_over 0 (turns_of calls) no_error cb)

-- A call with its retries, and the clock around them.
pub record Retries : Type 0 where
  pub asked_at : ℕ
  pub trials : ℕ → Trial
  pub recorded_at : ℕ

abbrev pub retry_turns : ℤ → List Retries → List Turn
retry_turns max_retries [] = []
retry_turns max_retries (c ∷ cs) =
    record {
      asked_at = c.asked_at;
      outcome = complete_with_retry max_retries c.trials;
      recorded_at = c.recorded_at;
    }
    ∷ retry_turns max_retries cs

-- `CompleteWithRetry`
unfoldable pub complete_any_with_retry :
    ℤ → List Retries → CircuitBreaker → CircuitBreaker × Outcome
complete_any_with_retry max_retries calls cb =
    wrap all_models_failed_after_retries (fail_over 0 (retry_turns max_retries calls) no_error cb)

-- `CompleteWithSystem`, on the messages of `system_messages`.
unfoldable pub complete_any_with_system :
    List Call → CircuitBreaker → CircuitBreaker × Result CallError String
unfolding complete_any
complete_any_with_system calls cb =
    let (cb', outcome) = complete_any calls cb in (cb', system_answer outcome)

pub data IndexError : Type 0 where
  invalid_model_index : ℤ → IndexError

-- `ResetCircuitBreaker`
unfoldable pub reset_circuit_breaker :
    ℤ → FallbackClient → FallbackClient × Result IndexError (Unit {0})
reset_circuit_breaker (negsuc k) fc = (fc, err (invalid_model_index (negsuc k)))
reset_circuit_breaker (pos i) fc =
    if leb fc.clients i
    then (fc, err (invalid_model_index (pos i)))
    else (record fc { circuit_breaker = reset (pos i) fc.circuit_breaker }, ok tt)

unfoldable pub get_circuit_breaker_status : FallbackClient → List CircuitBreakerStatus
get_circuit_breaker_status fc = get_all_status fc.circuit_breaker

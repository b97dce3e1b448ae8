-- ===== src/Llm/Breaker/Examples.antt =====
-- Concrete runs of the circuit breaker of internal/llm/fallback.go.
use cryptofunk.Prelude.{◌≡◌, refl, pos, List, [], ◌∷◌, arith}
use cryptofunk.Llm.Breaker.{
  probe, blocked, fail, circuit_closed, circuit_open, circuit_half_open, ModelCircuit,
  CircuitBreakerConfig, CircuitBreaker, new_circuit, prune, ask, fail, mark_half_open,
}
use cryptofunk.Llm.Breaker.Circuit.{
  Event, asked, succeeded, failed, cleared, step, run, IsSound, run-IsSound,
}
use cryptofunk.Llm.Breaker.Window.{history, run-failures}
use cryptofunk.Llm.Breaker.Table.{circuit_at, call_all, map_circuit, events_of, circuit_at-call_all}
use cryptofunk.Llm.Breaker.Race.{
  Shared, Step, fails, Reach, here, next, start, late_write-reopens, blocked-until_timeout,
}

abbrev config : CircuitBreakerConfig
config = record { failure_threshold = 2; success_threshold = 1; timeout = 60; time_window = 300 }

-- Two failures open the circuit, a request after the timeout tries it, and it works again.
abbrev outage : List Event
outage = failed 10 ∷ failed 20 ∷ asked 30 ∷ asked 80 ∷ succeeded 90 ∷ failed 400 ∷ []

abbrev opened : ModelCircuit
opened = record {
  state = circuit_open;
  consecutive_fails = 2;
  consecutive_successes = 0;
  last_failure = 20;
  last_success = 0;
  opened_at = 20;
  failures = 10 ∷ 20 ∷ [];
}

abbrev trying : ModelCircuit
trying = record opened { state = circuit_half_open }

outage_opens : run config (failed 10 ∷ failed 20 ∷ asked 30 ∷ []) new_circuit ≡ opened
unfolding new_circuit run step prune
outage_opens = refl

outage_ends : (run config outage new_circuit).state ≡ circuit_closed
unfolding new_circuit run step
outage_ends = refl

run-IsSound_example : IsSound config (run config outage new_circuit)
run-IsSound_example = run-IsSound config (omega arith) outage (ground arith)

-- Open, with no caller between the locks.
abbrev shut : Shared
shut = record { circuit = opened; waiting = 0 }

abbrev failed_again : Shared
failed_again = record { circuit = fail config 40 opened; waiting = 0 }

abbrev one_failure : Reach config shut failed_again
one_failure = next here (fails 40 refl)

blocked-until_timeout_example :
    (failed_again.circuit.state ≡ circuit_open)
    × (failed_again.circuit.opened_at ≡ 20)
    × (failed_again.waiting ≡ 0)
    × (probe config 79 failed_again.circuit ≡ blocked)
blocked-until_timeout_example =
    blocked-until_timeout config shut failed_again one_failure 79 refl refl (tt, omega arith)
      (omega arith)

run-failures_example :
    (run config outage new_circuit).failures
    ≡ prune 300 (run config outage new_circuit).last_failure (history [] outage)
run-failures_example = run-failures config outage (ground arith)

abbrev two_models : CircuitBreaker
two_models = record { models = opened ∷ trying ∷ []; config = config }

circuit_at-call_all_example :
    circuit_at
      (pos 1)
      (call_all ((pos 0, failed 90) ∷ (pos 1, succeeded 95) ∷ (pos 7, cleared) ∷ []) two_models)
    ≡ map_circuit
        (run config
          (events_of (pos 1) ((pos 0, failed 90) ∷ (pos 1, succeeded 95) ∷ (pos 7, cleared) ∷ [])))
        (circuit_at (pos 1) two_models)
circuit_at-call_all_example =
    circuit_at-call_all ((pos 0, failed 90) ∷ (pos 1, succeeded 95) ∷ (pos 7, cleared) ∷ []) (pos 1)
      two_models

late_write-reopens_example :
    (s : Shared) × Reach config start s
    × (s.circuit.state ≡ circuit_closed)
    × (s.circuit.consecutive_fails ≡ 0)
    × (s.waiting ≡ 1)
    × Step config s (record { circuit = mark_half_open s.circuit; waiting = 0 })
    × ((fail config 500 (mark_half_open s.circuit)).state ≡ circuit_open)
    × ((fail config 500 s.circuit).state ≡ circuit_closed)
    × ((fail config 500 (ask config 500 s.circuit).0).state ≡ circuit_closed)
late_write-reopens_example = late_write-reopens config 500 (omega arith)

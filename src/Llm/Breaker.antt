-- ===== src/Llm/Breaker.antt =====
-- internal/llm/fallback.go, the type CircuitBreaker: one circuit for each model, by index.
-- A time is a count of nanoseconds after the zero `time.Time`; an operation that reads the clock
-- takes the reading as its first argument. `failTime.After(now.Add(-w))` is `now < failTime + w`
-- and `time.Since(t) >= w` is `t + w <= now`, with no subtraction.
pub mod Circuit
pub mod Window
pub mod Table
pub mod Race
pub mod Examples
use cryptofunk.Prelude.{
  ℕ, suc, ◌+◌, ◌*◌, ℤ, pos, negsuc, Bool, true, false, ◌&&◌, none, some, List, [], ◌∷◌, ◌++◌, ltb,
  leb, if◌then◌else◌, length, get_elem?, set, replicate, keep,
}

-- The Go names are kept in full: `open` is a reserved word.
pub data CircuitState : Type 0 where
  circuit_closed circuit_open circuit_half_open : CircuitState

pub record ModelCircuit : Type 0 where
  pub state : CircuitState
  pub consecutive_fails : ℕ
  pub consecutive_successes : ℕ
  pub last_failure : ℕ
  pub last_success : ℕ
  pub opened_at : ℕ
  pub failures : List ℕ

pub record CircuitBreakerConfig : Type 0 where
  pub failure_threshold : ℕ
  pub success_threshold : ℕ
  pub timeout : ℕ
  pub time_window : ℕ

pub record CircuitBreaker : Type 0 where
  pub models : List ModelCircuit
  pub config : CircuitBreakerConfig

abbrev pub second : ℕ
second = 1000000000

unfoldable pub default_circuit_breaker_config : CircuitBreakerConfig
default_circuit_breaker_config = record {
  failure_threshold = 5;
  success_threshold = 2;
  timeout = 60 * second;
  time_window = 5 * (60 * second);
}

unfoldable pub new_circuit : ModelCircuit
new_circuit = record {
  state = circuit_closed;
  consecutive_fails = 0;
  consecutive_successes = 0;
  last_failure = 0;
  last_success = 0;
  opened_at = 0;
  failures = [];
}

unfoldable pub new_circuit_breaker : ℕ → CircuitBreakerConfig → CircuitBreaker
new_circuit_breaker num_models config = record {
  models = replicate num_models new_circuit;
  config = config;
}

-- What `IsOpen` reads of one circuit under the read lock: whether the request is blocked, is let
-- through, or is let through after the circuit has been marked half-open under the write lock.
pub data Probe : Type 0 where
  blocked allowed recover : Probe

probe_state : CircuitState → Bool → Probe
probe_state circuit_open true = recover
probe_state circuit_open false = blocked
probe_state circuit_half_open elapsed = allowed
probe_state circuit_closed elapsed = allowed

unfoldable pub probe : CircuitBreakerConfig → ℕ → ModelCircuit → Probe
unfolding probe_state
probe config now c = probe_state c.state (leb (c.opened_at + config.timeout) now)

-- `circuit.state = CircuitHalfOpen`, done under the write lock whatever the state is by then.
unfoldable pub mark_half_open : ModelCircuit → ModelCircuit
mark_half_open c = record c { state = circuit_half_open }

abbrev after_probe : Probe → ModelCircuit → ModelCircuit × Bool
after_probe blocked c = (c, true)
after_probe allowed c = (c, false)
after_probe recover c = (mark_half_open c, false)

-- The two halves of `IsOpen` in one go: nothing else runs between the locks.
unfoldable pub ask : CircuitBreakerConfig → ℕ → ModelCircuit → ModelCircuit × Bool
unfolding probe mark_half_open
ask config now c = after_probe (probe config now c) c

abbrev is_half_open : CircuitState → Bool
is_half_open circuit_half_open = true
is_half_open s = false

unfoldable pub succeed : CircuitBreakerConfig → ℕ → ModelCircuit → ModelCircuit
succeed config now c =
    let counted = record c {
      consecutive_successes = c.consecutive_successes + 1;
      consecutive_fails = 0;
      last_success = now;
    } in
    if is_half_open counted.state && leb config.success_threshold counted.consecutive_successes
    then record counted { state = circuit_closed; consecutive_successes = 0 }
    else counted

-- The clean-up of the sliding window: the failures after the cutoff `now - time_window`.
unfoldable pub prune : ℕ → ℕ → List ℕ → List ℕ
prune window now = keep (λ fail_time. ltb now (fail_time + window))

open_circuit : ℕ → ModelCircuit → ModelCircuit
open_circuit now c = record c { state = circuit_open; opened_at = now }

-- The `switch circuit.state` of `RecordFailure`; an open circuit stays as it is.
trip : CircuitState → CircuitBreakerConfig → ℕ → ModelCircuit → ModelCircuit
unfolding open_circuit
trip circuit_closed config now c =
    if leb config.failure_threshold c.consecutive_fails then open_circuit now c else c
trip circuit_half_open config now c = open_circuit now c
trip circuit_open config now c = c

unfoldable pub fail : CircuitBreakerConfig → ℕ → ModelCircuit → ModelCircuit
unfolding trip
fail config now c = trip c.state config now (record c {
  consecutive_fails = c.consecutive_fails + 1;
  consecutive_successes = 0;
  last_failure = now;
  failures = prune config.time_window now (c.failures ++ now ∷ []);
})

unfoldable pub clear : ModelCircuit → ModelCircuit
clear c = record c {
  state = circuit_closed;
  consecutive_fails = 0;
  consecutive_successes = 0;
  failures = [];
}

-- `circuit := &cb.models[modelIndex]` and a write through it, behind the range check.
unfoldable pub update_model : (ModelCircuit → ModelCircuit) → ℤ → CircuitBreaker → CircuitBreaker
update_model f (negsuc k) cb = cb
update_model f (pos i) cb = elim (get_elem? cb.models i) [
  | none ↦ cb
  | some c ↦ record cb { models = set cb.models i (f c) }
]

unfoldable pub is_open : ℕ → ℤ → CircuitBreaker → CircuitBreaker × Bool
is_open now (negsuc k) cb = (cb, true)
is_open now (pos i) cb = elim (get_elem? cb.models i) [
  | none ↦ (cb, true)
  | some c ↦
      let (c', answer) = ask cb.config now c in (record cb { models = set cb.models i c' }, answer)
]

unfoldable pub record_success : ℕ → ℤ → CircuitBreaker → CircuitBreaker
record_success now i cb = update_model (succeed cb.config now) i cb

unfoldable pub record_failure : ℕ → ℤ → CircuitBreaker → CircuitBreaker
record_failure now i cb = update_model (fail cb.config now) i cb

unfoldable pub reset : ℤ → CircuitBreaker → CircuitBreaker
reset i cb = update_model clear i cb

pub record CircuitBreakerStatus : Type 0 where
  pub model_index : ℕ
  pub state : CircuitState
  pub consecutive_failures : ℕ
  pub consecutive_successes : ℕ
  pub last_failure : ℕ
  pub last_success : ℕ
  pub opened_at : ℕ
  pub recent_failure_count : ℕ

unfoldable pub status_of : ℕ → ModelCircuit → CircuitBreakerStatus
status_of i c = record {
  model_index = i;
  state = c.state;
  consecutive_failures = c.consecutive_fails;
  consecutive_successes = c.consecutive_successes;
  last_failure = c.last_failure;
  last_success = c.last_success;
  opened_at = c.opened_at;
  recent_failure_count = length c.failures;
}

status_from : ℕ → List ModelCircuit → List CircuitBreakerStatus
unfolding status_of
status_from i [] = []
status_from i (c ∷ cs) = status_of i c ∷ status_from (suc i) cs

unfoldable pub get_all_status : CircuitBreaker → List CircuitBreakerStatus
unfolding status_from
get_all_status cb = status_from 0 cb.models

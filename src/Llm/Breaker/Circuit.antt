-- ===== src/Llm/Breaker/Circuit.antt =====
-- The life of one circuit (internal/llm/fallback.go): the events that reach it, and what any
-- sequence of them can do.
use cryptofunk.Prelude.{
  ℕ, suc, ◌+◌, ◌≤◌, ◌<◌, ◌≡◌, refl, ◌⊎◌, ◌∙◌, inl, inr, Bool-cases, le→leb, tests, false, List, [],
  ◌∷◌, arith, leb, if◌then◌else◌, length,
}
use cryptofunk.Llm.Breaker.{
  circuit_closed, circuit_open, circuit_half_open, ModelCircuit, CircuitBreakerConfig, new_circuit,
  ask, succeed, fail, clear,
}

pub data Event : Type 0 where
  asked succeeded failed : ℕ → Event
  cleared : Event

unfoldable pub step : CircuitBreakerConfig → Event → ModelCircuit → ModelCircuit
unfolding ask succeed fail clear
step config (asked now) c = (ask config now c).0
step config (succeeded now) c = succeed config now c
step config (failed now) c = fail config now c
step config cleared c = clear c

unfoldable pub run : CircuitBreakerConfig → List Event → ModelCircuit → ModelCircuit
run config [] c = c
run config (e ∷ es) c = run config es (step config e c)

-- What holds of a circuit between two events.
pub record IsSound (config : CircuitBreakerConfig) (c : ModelCircuit) : Type 0 where
  pub one_count : (c.consecutive_fails ≡ 0) ⊎ (c.consecutive_successes ≡ 0)
  pub below_threshold : c.state ≡ circuit_closed → c.consecutive_fails < config.failure_threshold
  pub opened_by_failure : c.state ≡ circuit_open → (c.opened_at ≤ c.last_failure)

-- The events come in the order of the clock, none before `t`.
abbrev pub InOrder : ℕ → List Event → Type 0
InOrder t [] = Unit
InOrder t (asked now ∷ es) = (t ≤ now) × InOrder now es
InOrder t (succeeded now ∷ es) = (t ≤ now) × InOrder now es
InOrder t (failed now ∷ es) = (t ≤ now) × InOrder now es
InOrder t (cleared ∷ es) = InOrder t es

-- The soundness of a circuit at the time `t`.
abbrev pub SoundAt : CircuitBreakerConfig → ℕ → ModelCircuit → Type 0
SoundAt config t c = IsSound config c × (c.last_failure ≤ t)

module _ (config : CircuitBreakerConfig) (pos_threshold : 0 < config.failure_threshold) where
  step-SoundAt :
      (e : Event) (es : List Event) (t : ℕ) (c : ModelCircuit)
      → InOrder t (e ∷ es)
      → SoundAt config t c
      → (u : ℕ) × InOrder u es × SoundAt config u (step config e c)
  unfolding step
  step-SoundAt (asked now) es t c o h = (now, o.1, ground arith)
  step-SoundAt (succeeded now) es t c o h = (now, o.1, ground arith)
  step-SoundAt (failed now) es t c o h = (now, o.1, ground arith)
  step-SoundAt cleared es t c o h = (t, o, ground arith)

  run-SoundAt :
      (es : List Event) (t : ℕ) (c : ModelCircuit)
      → InOrder t es
      → SoundAt config t c
      → IsSound config (run config es c)
  unfolding run
  run-SoundAt [] t c o h = h.0
  run-SoundAt (e ∷ es) t c o h =
      let (u, o', h') = step-SoundAt e es t c o h in run-SoundAt es u (step config e c) o' h'

  -- A circuit that starts as `NewCircuitBreaker` makes it stays sound under any events in the
  -- order of the clock, with a positive failure threshold: failures and successes are not counted
  -- at once, a closed circuit has fewer consecutive failures than the threshold, and an open one
  -- was opened no later than its last failure.
  pub run-IsSound : (es : List Event) → InOrder 0 es → IsSound config (run config es new_circuit)
  unfolding new_circuit
  run-IsSound es o = run-SoundAt es 0 new_circuit o (ground arith)

abbrev pub map_failed : List ℕ → List Event
map_failed [] = []
map_failed (t ∷ ts) = failed t ∷ map_failed ts

abbrev pub map_succeeded : List ℕ → List Event
map_succeeded [] = []
map_succeeded (t ∷ ts) = succeeded t ∷ map_succeeded ts

-- A circuit that is not closed is left alone by failures, but for its counts.
run-failed_open :
    (config : CircuitBreakerConfig) (ts : List ℕ) (c : ModelCircuit)
    → c.state ≡ circuit_open
    → ((run config (map_failed ts) c).state ≡ circuit_open)
      × ((run config (map_failed ts) c).opened_at ≡ c.opened_at)
unfolding run step
run-failed_open config [] c h = (h, refl)
run-failed_open config (t ∷ ts) c h =
    let (s, o) = run-failed_open config ts (fail config t c) (unfold fail in ground arith) in
    (s, o ∙ (unfold fail in ground arith))

fail_closed :
    (config : CircuitBreakerConfig) (t : ℕ) (c : ModelCircuit)
    → c.state ≡ circuit_closed
    → leb config.failure_threshold (c.consecutive_fails + 1) ≡ false
    → ((fail config t c).state ≡ circuit_closed)
      × ((fail config t c).consecutive_fails ≡ c.consecutive_fails + 1)
unfolding fail
fail_closed config t c h l = ground arith

-- A run of failures, with nothing between them, opens a closed circuit exactly when the
-- consecutive failures counted before it and the failures of the run, at least one, reach the
-- threshold; otherwise the circuit stays closed.
pub run-failed :
    (config : CircuitBreakerConfig) (t : ℕ) (ts : List ℕ) (c : ModelCircuit)
    → c.state ≡ circuit_closed
    → (run config (map_failed (t ∷ ts)) c).state ≡ (
        if leb config.failure_threshold (c.consecutive_fails + length (t ∷ ts))
        then circuit_open
        else circuit_closed)
unfolding run step
run-failed config t [] c h = unfold fail in ground arith
run-failed config t (u ∷ us) c h = elim (Bool-cases (leb threshold (c.consecutive_fails + 1))) [
  | inl now ↦
      rw (le→leb threshold (c.consecutive_fails + suc (suc (length us))) (omega tests))
        (run-failed_open config (u ∷ us) (fail config t c) (unfold fail in ground arith)).0
  | inr later ↦ ground (arith, run-failed config u us (fail config t c), fail_closed config t c)
]
  where
    open config use {failure_threshold as threshold}

succeed_half_open :
    (config : CircuitBreakerConfig) (t : ℕ) (c : ModelCircuit)
    → c.state ≡ circuit_half_open
    → leb config.success_threshold (c.consecutive_successes + 1) ≡ false
    → ((succeed config t c).state ≡ circuit_half_open)
      × ((succeed config t c).consecutive_successes ≡ c.consecutive_successes + 1)
unfolding succeed
succeed_half_open config t c h l = ground arith

run-succeeded_closed :
    (config : CircuitBreakerConfig) (ts : List ℕ) (c : ModelCircuit)
    → c.state ≡ circuit_closed
    → (run config (map_succeeded ts) c).state ≡ circuit_closed
unfolding run step
run-succeeded_closed config [] c h = h
run-succeeded_closed config (t ∷ ts) c h =
    run-succeeded_closed config ts (succeed config t c) (unfold succeed in ground arith)

-- A run of successes, with nothing between them, closes a half-open circuit exactly when the
-- consecutive successes counted before it and those of the run, at least one, reach the success
-- threshold; otherwise the circuit stays half-open.
pub run-succeeded :
    (config : CircuitBreakerConfig) (t : ℕ) (ts : List ℕ) (c : ModelCircuit)
    → c.state ≡ circuit_half_open
    → (run config (map_succeeded (t ∷ ts)) c).state ≡ (
        if leb config.success_threshold (c.consecutive_successes + length (t ∷ ts))
        then circuit_closed
        else circuit_half_open)
unfolding run step
run-succeeded config t [] c h = unfold succeed in ground arith
run-succeeded config t (u ∷ us) c h =
    elim (Bool-cases (leb threshold (c.consecutive_successes + 1))) [
      | inl now ↦
          rw (le→leb threshold (c.consecutive_successes + suc (suc (length us))) (omega tests)) (
            run-succeeded_closed config (u ∷ us) (succeed config t c)
              (unfold succeed in ground arith))
      | inr later ↦
          ground
            (arith, run-succeeded config u us (succeed config t c), succeed_half_open config t c)
    ]
  where
    open config use {success_threshold as threshold}

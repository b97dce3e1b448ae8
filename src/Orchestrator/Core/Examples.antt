-- ===== src/Orchestrator/Core/Examples.antt =====
-- Concrete agents and signals for internal/orchestrator/orchestrator.go, with whole numbers for floats.
use cryptofunk.Prelude.{
  ℕ, ◌+◌, ◌-◌, ◌*◌, ◌/◌, ltb, leb, ◌==◌, String, true, false, ◌≡◌, refl, ◌⊎◌, Option, none, some,
  List, [], ◌∷◌, ◌++◌, if◌then◌else◌, arith,
}
use cryptofunk.Prelude.Dict.{lookup}
use cryptofunk.Prelude.Floats.{Floats}
use cryptofunk.Orchestrator.Core.{
  AgentSignal, AgentSession, Heartbeat, OrchestratorConfig, trading_paused, Orchestrator,
  new_orchestrator, load_state, handle_signal, handle_heartbeat, check_agent_health,
}
use cryptofunk.Orchestrator.Core.Voting.{begin_cycle, continue_cycle, calculate_decision}
use cryptofunk.Orchestrator.Core.Control.{pause}
use cryptofunk.Orchestrator.Core.Run.{
  OrchestratorEvent, signalled, beat, ticked, continued, pause_asked, initialized, steps, pending,
  pause-silent,
}
use cryptofunk.Orchestrator.Core.Orderly.{IsOrderly, steps-IsOrderly}
use cryptofunk.Orchestrator.Core.Silence.{signals_without, silenced}
use cryptofunk.Orchestrator.Core.Verdict.{IsStrict, IsVerdict, calculate_decision-IsVerdict}

-- Whole numbers for the floats: a fraction is its numerator.
abbrev floats : Floats ℕ
floats = record {
  of_nat = λ n. n;
  ratio = λ m n. m;
  add = λ a b. a + b;
  sub = λ a b. a - b;
  mul = λ a b. a * b;
  div = λ a b. a / b;
  sqrt = λ a. a;
  abs = λ a. a;
  max = λ a b. if ltb a b then b else a;
  min = λ a b. if ltb a b then a else b;
  lt = ltb;
  le = leb;
  eq = ◌==◌;
  sort = λ l. l;
}

ltb_irrefl : (x : ℕ) → ltb x x ≡ false
ltb_irrefl x = ground arith

ltb_trans : (x y z : ℕ) → ltb x y ≡ true → ltb y z ≡ true → ltb x z ≡ true
ltb_trans x y z p q = ground arith

abbrev strict : IsStrict floats
strict = record { irrefl = ltb_irrefl; trans = ltb_trans }

abbrev settings : OrchestratorConfig ℕ
settings = record {
  step_interval = 30000000000;
  min_consensus = 1;
  min_confidence = 1;
  max_signal_age = 300000000000;
}

abbrev signal_by : String → String → ℕ → AgentSignal ℕ ℕ
signal_by name action at = record {
  agent_name = name;
  agent_type = "trend";
  symbol = "BTC";
  signal = action;
  confidence = 3;
  reasoning = "";
  timestamp = at;
  metadata = 0;
}

abbrev heartbeat_of : String → ℕ → Heartbeat
heartbeat_of name at = record {
  agent_name = name;
  agent_type = "trend";
  timestamp = at;
  status = "HEALTHY";
}

-- The agents "a" and "b" are known, "a" by a signal alone.
abbrev desk : Orchestrator ℕ ℕ
desk =
    steps floats
      (initialized true
        ∷ signalled 400000000000 (signal_by "a" "BUY" 400000000000)
        ∷ beat (heartbeat_of "b" 400000000000)
        ∷ [])
      (new_orchestrator settings (some false))

abbrev later_events : List (OrchestratorEvent ℕ ℕ)
later_events =
    beat (heartbeat_of "a" 500000000000)
    ∷ signalled 500000000000 (signal_by "a" "BUY" 500000000000)
    ∷ ticked 500000000000
    ∷ continued true 500000000000
    ∷ continued true 500000000000
    ∷ pause_asked true
    ∷ []

-- In a cycle that has let its decision past the second reading of the flag.
abbrev deciding_desk : Orchestrator ℕ ℕ
deciding_desk = steps floats (ticked 400000000000 ∷ continued true 400000000000 ∷ []) desk

abbrev after_pause : Orchestrator ℕ ℕ
after_pause = steps floats later_events (pause true deciding_desk).0

pause-silent_example :
    (after_pause.paused ≡ true)
    × ((after_pause.broadcasts ≡ deciding_desk.broadcasts ++ trading_paused ∷ [])
        ⊎ (after_pause.broadcasts
            ≡ (deciding_desk.broadcasts ++ trading_paused ∷ []) ++ pending deciding_desk.cycle))
unfolding pause steps load_state handle_signal handle_heartbeat new_orchestrator begin_cycle
    continue_cycle
pause-silent_example =
    pause-silent floats true later_events deciding_desk refl (tt, (tt, (tt, (tt, (tt, (tt, tt))))))

steps-IsOrderly_example :
    IsOrderly (steps floats later_events (load_state true (new_orchestrator settings (some true))))
steps-IsOrderly_example = steps-IsOrderly floats later_events settings (some true)

abbrev session_of : Option (AgentSession ℕ) → AgentSession ℕ
session_of (some s) = s
session_of none = record {
  name = "";
  type_ = "";
  enabled = false;
  weight = 0;
  last_heartbeat = 0;
  last_signal = 0;
  signal_count = 0;
  error_count = 0;
  health_status = "";
}

silenced_example :
    let later = steps floats later_events (check_agent_health 410000000000 desk) in
    let signals = signal_by "a" "BUY" 500000000000 ∷ signal_by "b" "SELL" 500000000000 ∷ [] in
    calculate_decision floats later.agents later.config "BTC" signals 500000000000
    ≡ calculate_decision floats later.agents later.config "BTC"
        (signals_without "a" signals)
        500000000000
unfolding lookup steps load_state handle_signal handle_heartbeat new_orchestrator
silenced_example =
    silenced floats 410000000000 later_events "a" desk (session_of (lookup "a" desk.agents)) "BTC"
      (signal_by "a" "BUY" 500000000000 ∷ signal_by "b" "SELL" 500000000000 ∷ []) 500000000000 refl
      refl

abbrev votes : List (AgentSignal ℕ ℕ)
votes = signal_by "a" "BUY" 400000000000 ∷ signal_by "c" "SELL" 400000000000 ∷ []

calculate_decision-IsVerdict_example :
    IsVerdict floats desk.agents settings votes
      (calculate_decision floats desk.agents settings "BTC" votes 400000000000)
calculate_decision-IsVerdict_example =
    calculate_decision-IsVerdict floats desk.agents strict settings "BTC" votes 400000000000

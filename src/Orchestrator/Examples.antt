-- ===== src/Orchestrator/Examples.antt =====
-- Concrete swaps by the coordinator of internal/orchestrator/hotswap.go.
use cryptofunk.Prelude.{
  ◌⊎◌, ℕ, ◌≡◌, refl, inr, pos, String, str_eq, Bool, true, false, none, some, List, [], ◌∷◌,
  if◌then◌else◌,
}
use cryptofunk.Prelude.Dict.{lookup, insert}
use cryptofunk.Orchestrator.HotSwap.{
  old_agent_not_found, agent_active, agent_paused, AgentState, AgentRegistration, AgentSpec,
  SwapSession, StateSnapshot, SwapError, pause_not_sent, HotSwapCoordinator,
  new_hot_swap_coordinator, registration_of, register_agent, update_agent_heartbeat, agent_of,
  with_status,
}
use cryptofunk.Orchestrator.HotSwap.Steps.{copied, World, snapshot_of}
use cryptofunk.Orchestrator.HotSwap.Swap.{successor, swap_agent, capture_state, new_session}
use cryptofunk.Orchestrator.HotSwap.View.{IsNamed}
use cryptofunk.Orchestrator.HotSwap.Outcome.{moved}
use cryptofunk.Orchestrator.HotSwap.Registry.{swap_agent-replaces}
use cryptofunk.Orchestrator.HotSwap.Rollback.{swap_agent-rolls_back, swap_agent-stays_paused}
use cryptofunk.Orchestrator.HotSwap.SameName.{swap_agent-same_name}
use cryptofunk.Orchestrator.HotSwap.Invariant.{IsNamedRegistry}
use cryptofunk.Orchestrator.HotSwap.Capture.{IsTrimmed, capture_state-IsTrimmed}
use cryptofunk.Orchestrator.HotSwap.Session.{IsEnded, swap_agent-IsEnded}
use cryptofunk.Orchestrator.HotSwap.Run.{
  Operation, registers, beats, apply, apply_all, apply_all-IsNamed,
}

-- A world where all goes well but for what the arguments say of the pause and the ping.
abbrev world : Bool → Bool → World ℕ
world pause_sent ping_answered = record {
  clock = λ moment. 5;
  copy_state = λ state. copied state;
  pause_sent = pause_sent;
  start_sent = true;
  ping_answered = ping_answered;
}

abbrev state : AgentState ℕ
state = record {
  memory = ("mood", 3) ∷ [];
  pending_tasks = [];
  active_task = none;
  history = [];
  configuration = [];
  performance_metrics = none;
  last_updated = 1;
}

abbrev spec : AgentSpec ℕ
spec = record {
  name = "trend";
  type_ = "technical";
  version = "1.0";
  capabilities = "signals" ∷ [];
  subscriptions = 8 ∷ [];
  state = some state;
  metadata = none;
  message_count = pos 0;
  error_count = pos 0;
}

abbrev agent : AgentRegistration ℕ
agent = record {
  name = "trend";
  type_ = "technical";
  version = "1.0";
  status = agent_active;
  capabilities = "signals" ∷ [];
  subscriptions = 8 ∷ [];
  state = state;
  metadata = [];
  registered_at = 2;
  last_heartbeat = 4;
  message_count = pos 0;
  error_count = pos 0;
}

abbrev operations : List (Operation ℕ)
operations = registers 1 2 3 spec ∷ beats 4 "trend" ∷ []

abbrev coordinator : HotSwapCoordinator ℕ
coordinator = apply_all operations (new_hot_swap_coordinator 100)

apply_all-IsNamed_example : IsNamedRegistry coordinator
apply_all-IsNamed_example = apply_all-IsNamed 100 operations

coordinator-IsNamed : IsNamed coordinator.registrations coordinator.agents
coordinator-IsNamed = apply_all-IsNamed 100 operations

agent_of-coordinator : agent_of "trend" coordinator ≡ some agent
unfolding apply_all apply new_hot_swap_coordinator agent_of update_agent_heartbeat register_agent
    lookup insert
agent_of-coordinator = refl

swap_agent-replaces_example :
    let (c, session, e) = swap_agent (world true true) "s1" "trend" "trend2" none coordinator in
    let new =
      successor "trend2" none agent (some (moved (world true true) agent coordinator state)) in
    (e ≡ none)
    × IsNamed c.registrations c.agents
    × ((key : String)
        → agent_of key c ≡ (
            if str_eq "trend" key
            then none
            else if str_eq "trend2" key
            then some (registration_of 5 5 5 new)
            else agent_of key coordinator))
swap_agent-replaces_example =
    swap_agent-replaces (world true true) "s1" "trend2" none agent state coordinator
      coordinator-IsNamed agent_of-coordinator refl refl refl refl refl refl

swap_agent-rolls_back_example :
    let (c, session, error) =
      swap_agent (world true false) "s1" "trend" "trend2" none coordinator in
    let new =
      successor "trend2" none agent (some (moved (world true false) agent coordinator state)) in
    ((e : SwapError) × (error ≡ some e))
    × IsNamed c.registrations c.agents
    × ((key : String)
        → agent_of key c ≡ (
            if str_eq "trend" key
            then some (with_status agent_active agent)
            else if str_eq "trend2" key
            then some (registration_of 5 5 5 new)
            else agent_of key coordinator))
swap_agent-rolls_back_example =
    swap_agent-rolls_back (world true false) "s1" "trend2" none agent state coordinator
      coordinator-IsNamed agent_of-coordinator refl refl refl refl (inr refl)

swap_agent-stays_paused_example :
    let (c, session, error) =
      swap_agent (world false true) "s1" "trend" "trend2" none coordinator in
    (error ≡ some pause_not_sent)
    × ((key : String)
        → agent_of key c ≡ (
            if str_eq "trend" key
            then some (with_status agent_paused agent)
            else agent_of key coordinator))
swap_agent-stays_paused_example =
    swap_agent-stays_paused (world false true) "s1" "trend2" none agent state coordinator
      coordinator-IsNamed agent_of-coordinator refl refl

swap_agent-same_name_example :
    let (c, session, e) = swap_agent (world true true) "s1" "trend" "trend" none coordinator in
    (e ≡ none)
    × ((key : String)
        → agent_of key c ≡ (if str_eq "trend" key then none else agent_of key coordinator))
swap_agent-same_name_example =
    swap_agent-same_name (world true true) "s1" none agent state coordinator coordinator-IsNamed
      agent_of-coordinator refl refl refl refl refl

abbrev session : SwapSession ℕ
session = new_session (world true true) "s1" "trend" "trend2"

capture_state-IsTrimmed_example :
    (history : List (StateSnapshot ℕ)) × ((capture_state
        (world true true)
        agent
        coordinator
        session).1.state_snapshot
      ≡ some (record state { history = history }))
    × IsTrimmed coordinator.max_history_size [] (snapshot_of 5 state) history
capture_state-IsTrimmed_example =
    capture_state-IsTrimmed (world true true) agent state coordinator session refl

swap_agent-IsEnded_example :
    let (c, session', error) =
      swap_agent (world true false) "s1" "trend" "trend2" none coordinator in
    ((agent_of "trend" coordinator ≡ none)
      × (swap_agent (world true false) "s1" "trend" "trend2" none coordinator
          ≡ (coordinator, none, some (old_agent_not_found "trend"))))
    ⊎ ((s : SwapSession ℕ) × (session' ≡ some s) × (lookup "s1" c.swaps ≡ some s) × IsEnded s error)
swap_agent-IsEnded_example =
    swap_agent-IsEnded (world true false) "s1" "trend" "trend2" none coordinator

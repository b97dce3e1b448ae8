-- ===== src/Orchestrator/HotSwap/Swap.antt =====
-- internal/orchestrator/hotswap.go, SwapAgent: the phases of a swap. The deep copy of a state by
-- JSON, the answers of the message bus and the readings of the clock are arguments; nothing else
-- runs between the phases. What a send or a post returns where the code only logs it is left out.
use cryptofunk.Prelude.{
  ℕ, pos, String, Bool, true, false, Option, none, some, [], if◌then◌else◌, get_elem?, ok, err,
}
use Prim.Native.String.{◌++◌ as ◌+++◌}
use cryptofunk.Prelude.Dict.{Dict, lookup, insert}
use cryptofunk.Orchestrator.HotSwap.{
  AgentStatus, agent_active, agent_paused, agent_swapping, agent_terminating, agent_offline,
  AgentState, AgentRegistration, AgentSpec, SwapStatus, swap_initiating, swap_capturing_state,
  swap_pausing_old, swap_transferring, swap_starting_new, swap_verifying, SwapError,
  old_agent_not_found, not_serialized, not_deserialized, pause_not_sent, not_registered,
  start_not_sent, new_agent_not_found, new_agent_not_active, not_responsive, SwapSession, sent,
  posted, HotSwapCoordinator, emit, register_agent, agent_of, unregister_agent, update_registration,
  with_status,
}
use cryptofunk.Orchestrator.HotSwap.Steps.{
  copied, unserializable, undeserializable, swap_begins, swap_ends, snapshot_taken, state_made,
  registered, heartbeat, step_begins, step_ends, World, add_step, complete_step, fail_swap,
  complete_swap, captured,
}

-- What a phase leaves: the coordinator, the session, and the error if there is one.
abbrev pub Phase : Type 0 → Type 0
Phase V = HotSwapCoordinator V × SwapSession V × Option SwapError

abbrev pub is_active : AgentStatus → Bool
is_active agent_active = true
is_active agent_paused = false
is_active agent_swapping = false
is_active agent_terminating = false
is_active agent_offline = false

module _ {V : Type 0} where
  abbrev pub successor :
      String → Option (Dict V) → AgentRegistration V → Option (AgentState V) → AgentSpec V
  successor new_name new_config agent state = record {
    name = new_name;
    type_ = agent.type_;
    version = agent.version +++ "-swap";
    capabilities = agent.capabilities;
    subscriptions = [];
    state = state;
    metadata = new_config;
    message_count = pos 0;
    error_count = pos 0;
  }

  -- `if err := phase; err != nil { ...; return }` before what follows.
  abbrev pub and_then :
      Phase V
      → (HotSwapCoordinator V → SwapSession V → SwapError → Phase V)
      → (HotSwapCoordinator V → SwapSession V → Phase V)
      → Phase V
  and_then (c, s, some e) on_error next = on_error c s e
  and_then (c, s, none) on_error next = next c s

  -- The session lies in the map from the start, and is changed there.
  abbrev pub with_session :
      String → Phase V → HotSwapCoordinator V × Option (SwapSession V) × Option SwapError
  with_session id (c, s, e) = (record c { swaps = insert id s c.swaps }, some s, e)

module _ {V : Type 0} (w : World V) where
  abbrev begin : String → SwapStatus → SwapSession V → SwapSession V
  begin name = add_step (w.clock (step_begins name)) name

  abbrev done : String → SwapSession V → SwapSession V
  done name = complete_step (w.clock (step_ends name))

  unfoldable pub capture_state :
      AgentRegistration V → HotSwapCoordinator V → SwapSession V → Phase V
  unfolding add_step complete_step captured
  capture_state agent c session =
      let s = begin "capture_state" swap_capturing_state session in
      elim (w.copy_state agent.state) [
        | unserializable ↦ (c, s, some not_serialized)
        | undeserializable ↦ (c, s, some not_deserialized)
        | copied copy ↦
            let state = captured c.max_history_size (w.clock snapshot_taken) agent.state copy in
            (c, done "capture_state" (record s { state_snapshot = some state }), none)
      ]

  unfoldable pub pause_agent :
      ℕ → AgentRegistration V → HotSwapCoordinator V → SwapSession V → Phase V
  unfolding add_step complete_step update_registration
  pause_agent place agent c session =
      let s = begin "pause_agent" swap_pausing_old session in
      let c' =
        emit (sent agent.name "pause") (update_registration (with_status agent_paused) place c) in
      if w.pause_sent then (c', done "pause_agent" s, none) else (c', s, some pause_not_sent)

  unfoldable pub transfer_state : AgentSpec V → HotSwapCoordinator V → SwapSession V → Phase V
  unfolding add_step complete_step register_agent
  transfer_state agent c session =
      let s = begin "transfer_state" swap_transferring session in
      let (c', result) =
        register_agent (w.clock state_made) (w.clock registered) (w.clock heartbeat) agent c in
      elim result [
        | err e ↦ (c', s, some (not_registered e))
        | ok _ ↦
            (emit (posted "agent_swaps" session.new_agent_name) c', done "transfer_state" s, none)
      ]

  unfoldable pub start_new_agent : AgentSpec V → HotSwapCoordinator V → SwapSession V → Phase V
  unfolding add_step complete_step
  start_new_agent agent c session =
      let s = begin "start_new_agent" swap_starting_new session in
      let c' = emit (sent agent.name "start") c in
      if w.start_sent then (c', done "start_new_agent" s, none) else (c', s, some start_not_sent)

  unfoldable pub verify_agent : AgentSpec V → HotSwapCoordinator V → SwapSession V → Phase V
  unfolding add_step complete_step agent_of
  verify_agent agent c session =
      let s = begin "verify_agent" swap_verifying session in
      let c' = emit (sent agent.name "ping") c in
      elim (agent_of agent.name c) [
        | none ↦ (c, s, some new_agent_not_found)
        | some found ↦
            if is_active found.status
            then (if w.ping_answered
                then (c', done "verify_agent" s, none)
                else (c', s, some not_responsive))
            else (c, s, some (new_agent_not_active found.status))
      ]

  -- The status of the session stays as it is. That the old agent could not be unregistered only
  -- goes to the log.
  unfoldable pub terminate_agent :
      ℕ
      → AgentRegistration V
      → HotSwapCoordinator V
      → SwapSession V
      → HotSwapCoordinator V × SwapSession V
  unfolding add_step complete_step update_registration unregister_agent
  terminate_agent place agent c session =
      let s = begin "terminate_old_agent" session.status session in
      let c1 =
        emit (sent agent.name "terminate")
          (update_registration (with_status agent_terminating) place c) in
      ((unregister_agent agent.name c1).0, done "terminate_old_agent" s)

  unfoldable pub resume_agent :
      ℕ → AgentRegistration V → HotSwapCoordinator V → HotSwapCoordinator V
  unfolding update_registration
  resume_agent place agent c =
      emit (sent agent.name "resume") (update_registration (with_status agent_active) place c)

  -- `failSwap` and the return.
  unfoldable pub abandon : HotSwapCoordinator V → SwapSession V → SwapError → Phase V
  unfolding fail_swap
  abandon c session e = (c, fail_swap (w.clock swap_ends) e session, some e)

  -- `failSwap`, the resumption of the old agent, and the return.
  unfoldable pub roll_back :
      ℕ → AgentRegistration V → HotSwapCoordinator V → SwapSession V → SwapError → Phase V
  unfolding fail_swap resume_agent
  roll_back place agent c session e =
      (resume_agent place agent c, fail_swap (w.clock swap_ends) e session, some e)

  unfoldable pub finish : ℕ → AgentRegistration V → HotSwapCoordinator V → SwapSession V → Phase V
  unfolding terminate_agent complete_swap
  finish place agent c session =
      let (c', s) = terminate_agent place agent c session in
      (c', complete_swap (w.clock swap_ends) s, none)

  -- The steps 3 to 6, with the new agent.
  unfoldable pub replace :
      ℕ → AgentRegistration V → AgentSpec V → HotSwapCoordinator V → SwapSession V → Phase V
  unfolding transfer_state start_new_agent verify_agent roll_back finish
  replace place agent new c session =
      and_then (transfer_state new c session) (roll_back place agent) (λ c1 s1.
        and_then (start_new_agent new c1 s1) (roll_back place agent)
          (λ c2 s2. and_then (verify_agent new c2 s2) (roll_back place agent) (finish place agent)))

  unfoldable pub swap_phases :
      ℕ
      → AgentRegistration V
      → String
      → Option (Dict V)
      → HotSwapCoordinator V
      → SwapSession V
      → Phase V
  unfolding capture_state pause_agent abandon replace
  swap_phases place agent new_name new_config c session =
      and_then (capture_state agent c session) abandon (λ c1 s1.
        and_then (pause_agent place agent c1 s1) abandon (λ c2 s2.
          replace place agent (successor new_name new_config agent s2.state_snapshot) c2 s2))

  unfoldable pub new_session : String → String → String → SwapSession V
  new_session id old_name new_name = record {
    id = id;
    old_agent_name = old_name;
    new_agent_name = new_name;
    status = swap_initiating;
    state_snapshot = none;
    started_at = w.clock swap_begins;
    completed_at = none;
    duration = 0;
    error_message = none;
    steps = [];
  }

  -- `SwapAgent`; the id is a fresh UUID.
  unfoldable pub swap_agent :
      String
      → String
      → String
      → Option (Dict V)
      → HotSwapCoordinator V
      → HotSwapCoordinator V × Option (SwapSession V) × Option SwapError
  unfolding swap_phases new_session
  swap_agent id old_name new_name new_config c = elim (lookup old_name c.agents) [
    | none ↦ (c, none, some (old_agent_not_found old_name))
    | some place ↦ elim (get_elem? c.registrations place) [
      | none ↦ (c, none, some (old_agent_not_found old_name))
      | some agent ↦
          with_session id
            (swap_phases place agent new_name new_config c (new_session id old_name new_name))
    ]
  ]

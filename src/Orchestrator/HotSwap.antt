-- ===== src/Orchestrator/HotSwap.antt =====
-- internal/orchestrator/hotswap.go: the registry of agents, and what is kept of the swaps. The
-- registry's map holds pointers, so the registrations lie in a store and the map holds their
-- places in it; the store never frees a place. The swaps themselves are in the child Swap.
-- `V` stands for the values that the coordinator only carries: memory, payloads, metadata and the
-- subscriptions of the message bus.
pub mod Steps
pub mod Swap
pub mod View
pub mod Phases
pub mod Outcome
pub mod Registry
pub mod Rollback
pub mod SameName
pub mod Invariant
pub mod Run
pub mod Capture
pub mod Session
use cryptofunk.Prelude.{
  ℕ, ℤ, String, Bool, Option, none, some, List, [], ◌∷◌, ◌++◌, str_eq, if◌then◌else◌, length,
  get_elem?, set, Result, ok, err,
}
use cryptofunk.Prelude.Dict.{Dict, lookup, insert, erase}

pub data AgentStatus : Type 0 where
  agent_active agent_paused agent_swapping agent_terminating agent_offline : AgentStatus

pub data TaskStatus : Type 0 where
  task_pending task_running task_completed task_failed task_cancelled : TaskStatus

pub record AgentTask (V : Type 0) : Type 0 where
  pub id : String
  pub type_ : String
  pub payload : V
  pub priority : ℤ
  pub status : TaskStatus
  pub result : Option V
  pub error_message : String
  pub created_at : ℕ
  pub started_at : Option ℕ
  pub completed_at : Option ℕ
  pub metadata : Dict V

-- The values of a snapshot's map.
pub data SnapshotValue (V : Type 0) : Type 0 where
  memory_value : Dict V → SnapshotValue V
  count_value : ℕ → SnapshotValue V
  flag_value : Bool → SnapshotValue V
  other_value : V → SnapshotValue V

pub record StateSnapshot (V : Type 0) : Type 0 where
  pub timestamp : ℕ
  pub state : Dict (SnapshotValue V)
  pub checksum : String

-- The performance metrics are only carried; `none` stands for the zero ones.
pub record AgentState (V : Type 0) : Type 0 where
  pub memory : Dict V
  pub pending_tasks : List (AgentTask V)
  pub active_task : Option (AgentTask V)
  pub history : List (StateSnapshot V)
  pub configuration : Dict V
  pub performance_metrics : Option V
  pub last_updated : ℕ

pub record AgentRegistration (V : Type 0) : Type 0 where
  pub name : String
  pub type_ : String
  pub version : String
  pub status : AgentStatus
  pub capabilities : List String
  pub subscriptions : List V
  pub state : AgentState V
  pub metadata : Dict V
  pub registered_at : ℕ
  pub last_heartbeat : ℕ
  pub message_count : ℤ
  pub error_count : ℤ

-- A registration as `RegisterAgent` is given it: the state and the metadata may be nil, and the
-- status and the times are still to be set.
pub record AgentSpec (V : Type 0) : Type 0 where
  pub name : String
  pub type_ : String
  pub version : String
  pub capabilities : List String
  pub subscriptions : List V
  pub state : Option (AgentState V)
  pub metadata : Option (Dict V)
  pub message_count : ℤ
  pub error_count : ℤ

pub data SwapStatus : Type 0 where
  swap_initiating swap_capturing_state swap_pausing_old swap_transferring : SwapStatus
  swap_starting_new swap_verifying swap_completed swap_failed swap_rolled_back : SwapStatus

pub record SwapStep : Type 0 where
  pub name : String
  pub status : String
  pub started_at : ℕ
  pub completed_at : Option ℕ
  pub duration : ℕ

pub data SwapError : Type 0 where
  old_agent_not_found agent_not_found swap_not_found : String → SwapError
  name_required not_serialized not_deserialized pause_not_sent : SwapError
  not_registered : SwapError → SwapError
  start_not_sent new_agent_not_found : SwapError
  new_agent_not_active : AgentStatus → SwapError
  not_responsive : SwapError

-- The error is nil, or one that has been reported.
pub record SwapSession (V : Type 0) : Type 0 where
  pub id : String
  pub old_agent_name : String
  pub new_agent_name : String
  pub status : SwapStatus
  pub state_snapshot : Option (AgentState V)
  pub started_at : ℕ
  pub completed_at : Option ℕ
  pub duration : ℕ
  pub error_message : Option SwapError
  pub steps : List SwapStep

-- What goes out: a control message to an agent, a post to the blackboard, the end of a
-- subscription.
pub data Effect (V : Type 0) : Type 0 where
  sent : String → String → Effect V
  posted : String → String → Effect V
  unsubscribed : V → Effect V

-- The effects are those since the coordinator was made, the latest last.
pub record HotSwapCoordinator (V : Type 0) : Type 0 where
  pub max_history_size : ℕ
  pub registrations : List (AgentRegistration V)
  pub agents : Dict ℕ
  pub swaps : Dict (SwapSession V)
  pub effects : List (Effect V)

abbrev new_state : {V : Type 0} → ℕ → Option (AgentState V) → AgentState V
new_state created (some s) = s
new_state created none = record {
  memory = [];
  pending_tasks = [];
  active_task = none;
  history = [];
  configuration = [];
  performance_metrics = none;
  last_updated = created;
}

abbrev or_empty_map : {A : Type 0} → Option (Dict A) → Dict A
or_empty_map none = []
or_empty_map (some m) = m

module _ {V : Type 0} where
  unfoldable pub new_hot_swap_coordinator : ℕ → HotSwapCoordinator V
  new_hot_swap_coordinator max_history_size = record {
    max_history_size = max_history_size;
    registrations = [];
    agents = [];
    swaps = [];
    effects = [];
  }

  abbrev pub emit : Effect V → HotSwapCoordinator V → HotSwapCoordinator V
  emit e c = record c { effects = c.effects ++ e ∷ [] }

  unfoldable pub registration_of : ℕ → ℕ → ℕ → AgentSpec V → AgentRegistration V
  registration_of created registered heartbeat agent = record {
    name = agent.name;
    type_ = agent.type_;
    version = agent.version;
    status = agent_active;
    capabilities = agent.capabilities;
    subscriptions = agent.subscriptions;
    state = new_state created agent.state;
    metadata = or_empty_map agent.metadata;
    registered_at = registered;
    last_heartbeat = heartbeat;
    message_count = agent.message_count;
    error_count = agent.error_count;
  }

  -- `RegisterAgent`, with its three readings of the clock; a fresh registration each time.
  unfoldable pub register_agent :
      ℕ
      → ℕ
      → ℕ
      → AgentSpec V
      → HotSwapCoordinator V
      → HotSwapCoordinator V × Result SwapError (Unit {0})
  unfolding registration_of
  register_agent created registered heartbeat agent c =
      if str_eq agent.name "" then (c, err name_required) else (
        emit (posted "agent_registry" agent.name) (record c {
          registrations =
              c.registrations ++ registration_of created registered heartbeat agent ∷ [];
          agents = insert agent.name (length c.registrations) c.agents;
        }),
        ok tt,
      )

  abbrev pub at_place : List (AgentRegistration V) → Option ℕ → Option (AgentRegistration V)
  at_place regs none = none
  at_place regs (some place) = get_elem? regs place

  -- The registration that a name of the registry leads to.
  unfoldable pub agent_of : String → HotSwapCoordinator V → Option (AgentRegistration V)
  agent_of name c = at_place c.registrations (lookup name c.agents)

  unfoldable pub unsubscribe_all : List V → HotSwapCoordinator V → HotSwapCoordinator V
  unsubscribe_all [] c = c
  unsubscribe_all (s ∷ ss) c = unsubscribe_all ss (emit (unsubscribed s) c)

  -- `UnregisterAgent`; whether the bus ends a subscription only goes to the log.
  unfoldable pub unregister_agent :
      String → HotSwapCoordinator V → HotSwapCoordinator V × Result SwapError (Unit {0})
  unfolding agent_of unsubscribe_all
  unregister_agent name c = elim (agent_of name c) [
    | none ↦ (c, err (agent_not_found name))
    | some agent ↦
        let c' = unsubscribe_all agent.subscriptions c in
        (emit (posted "agent_registry" name) (record c' { agents = erase name c'.agents }), ok tt)
  ]

  -- A write through a pointer to a registration.
  unfoldable pub update_registration :
      (AgentRegistration V → AgentRegistration V) → ℕ → HotSwapCoordinator V → HotSwapCoordinator V
  update_registration f place c = elim (get_elem? c.registrations place) [
    | none ↦ c
    | some agent ↦ record c { registrations = set c.registrations place (f agent) }
  ]

  abbrev pub with_status : AgentStatus → AgentRegistration V → AgentRegistration V
  with_status status agent = record agent { status = status }

  -- `UpdateAgentHeartbeat` and `UpdateAgentState`, by what they write.
  unfoldable pub update_agent :
      (AgentRegistration V → AgentRegistration V)
      → String
      → HotSwapCoordinator V
      → HotSwapCoordinator V × Result SwapError (Unit {0})
  unfolding update_registration
  update_agent f name c = elim (lookup name c.agents) [
    | none ↦ (c, err (agent_not_found name))
    | some place ↦ (update_registration f place c, ok tt)
  ]

  unfoldable pub update_agent_heartbeat :
      ℕ → String → HotSwapCoordinator V → HotSwapCoordinator V × Result SwapError (Unit {0})
  unfolding update_agent
  update_agent_heartbeat now = update_agent (λ agent. record agent { last_heartbeat = now })

  unfoldable pub update_agent_state :
      ℕ
      → String
      → AgentState V
      → HotSwapCoordinator V
      → HotSwapCoordinator V × Result SwapError (Unit {0})
  unfolding update_agent
  update_agent_state now name state =
      update_agent (λ agent. record agent { state = record state { last_updated = now } }) name

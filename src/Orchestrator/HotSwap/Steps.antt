-- ===== src/Orchestrator/HotSwap/Steps.antt =====
-- internal/orchestrator/hotswap.go: what a swap meets of the world, the record of its steps in the
-- session (addStep, completeStep, failSwap, completeSwap), and the state it captures.
use cryptofunk.Prelude.{
  ℕ, ◌-◌, String, Bool, true, false, none, some, List, [], ◌∷◌, ◌++◌, ltb, if◌then◌else◌, length,
  drop,
}
use cryptofunk.Orchestrator.HotSwap.{
  AgentState, StateSnapshot, memory_value, count_value, flag_value, SwapStatus, swap_completed,
  swap_failed, SwapStep, SwapError, SwapSession,
}

-- What `json.Marshal` and `json.Unmarshal` make of a state.
pub data Copied (V : Type 0) : Type 0 where
  unserializable undeserializable : Copied V
  copied : AgentState V → Copied V

-- The readings of the clock in a swap.
pub data Moment : Type 0 where
  swap_begins swap_ends snapshot_taken state_made registered heartbeat : Moment
  step_begins step_ends : String → Moment

-- What the swap meets: the clock, the copies, and whether the message bus sends the pause and the
-- start and brings a reply to the ping.
pub record World (V : Type 0) : Type 0 where
  pub clock : Moment → ℕ
  pub copy_state : AgentState V → Copied V
  pub pause_sent : Bool
  pub start_sent : Bool
  pub ping_answered : Bool

-- The end of the last step.
unfoldable pub complete_last : ℕ → List SwapStep → List SwapStep
complete_last now [] = []
complete_last now (s ∷ []) =
    record s { status = "completed"; completed_at = some now; duration = now - s.started_at } ∷ []
complete_last now (s ∷ t ∷ rest) = s ∷ complete_last now (t ∷ rest)

-- The most recent snapshots.
unfoldable pub trim_history : {A : Type 0} → ℕ → List A → List A
trim_history max history =
    if ltb max (length history) then drop (length history - max) history else history

module _ {V : Type 0} where
  unfoldable pub add_step : ℕ → String → SwapStatus → SwapSession V → SwapSession V
  add_step now name status session = record session {
    status = status;
    steps =
        session.steps
        ++ record {
          name = name;
          status = "running";
          started_at = now;
          completed_at = none;
          duration = 0;
        }
          ∷ [];
  }

  unfoldable pub complete_step : ℕ → SwapSession V → SwapSession V
  unfolding complete_last
  complete_step now session = record session { steps = complete_last now session.steps }

  unfoldable pub fail_swap : ℕ → SwapError → SwapSession V → SwapSession V
  fail_swap now e session = record session {
    status = swap_failed;
    error_message = some e;
    completed_at = some now;
    duration = now - session.started_at;
  }

  unfoldable pub complete_swap : ℕ → SwapSession V → SwapSession V
  complete_swap now session = record session {
    status = swap_completed;
    completed_at = some now;
    duration = now - session.started_at;
  }

  unfoldable pub snapshot_of : ℕ → AgentState V → StateSnapshot V
  snapshot_of now state = record {
    timestamp = now;
    state =
        ("memory", memory_value state.memory)
        ∷ ("pending_tasks", count_value (length state.pending_tasks))
        ∷ ("active_task", flag_value (elim state.active_task [ none ↦ false | some task ↦ true ]))
        ∷ [];
    checksum = "";
  }

  -- The copy of a state with the snapshot at the end of its history.
  unfoldable pub captured : ℕ → ℕ → AgentState V → AgentState V → AgentState V
  unfolding trim_history snapshot_of
  captured max now state copy = record copy {
    history = trim_history max (copy.history ++ snapshot_of now state ∷ []);
  }

-- ===== src/Orchestrator/HotSwap/Run.antt =====
-- Whole runs of the coordinator of internal/orchestrator/hotswap.go.
use cryptofunk.Prelude.{ℕ, String, Option, List, [], ◌∷◌}
use cryptofunk.Prelude.Dict.{Dict, lookup}
use cryptofunk.Orchestrator.HotSwap.{
  AgentState, AgentSpec, HotSwapCoordinator, new_hot_swap_coordinator, register_agent,
  unregister_agent, update_agent_heartbeat, update_agent_state,
}
use cryptofunk.Orchestrator.HotSwap.Steps.{World}
use cryptofunk.Orchestrator.HotSwap.Swap.{swap_agent}
use cryptofunk.Orchestrator.HotSwap.Invariant.{
  IsNamedRegistry, register_agent-IsNamed, unregister_agent-IsNamed, update_agent_heartbeat-IsNamed,
  update_agent_state-IsNamed, swap_agent-IsNamed,
}

-- The methods of the coordinator that change something, with what they are called on.
pub data Operation (V : Type 0) : Type 0 where
  registers : ℕ → ℕ → ℕ → AgentSpec V → Operation V
  unregisters : String → Operation V
  beats : ℕ → String → Operation V
  updates : ℕ → String → AgentState V → Operation V
  swaps : World V → String → String → String → Option (Dict V) → Operation V

module _ {V : Type 0} where
  unfoldable pub apply : Operation V → HotSwapCoordinator V → HotSwapCoordinator V
  apply (registers t u v agent) c = (register_agent t u v agent c).0
  apply (unregisters name) c = (unregister_agent name c).0
  apply (beats now name) c = (update_agent_heartbeat now name c).0
  apply (updates now name state) c = (update_agent_state now name state c).0
  apply (swaps w id old_name new_name config) c = (swap_agent w id old_name new_name config c).0

  unfoldable pub apply_all : List (Operation V) → HotSwapCoordinator V → HotSwapCoordinator V
  apply_all [] c = c
  apply_all (o ∷ os) c = apply_all os (apply o c)

  apply-IsNamed :
      (o : Operation V) (c : HotSwapCoordinator V) → IsNamedRegistry c → IsNamedRegistry (apply o c)
  unfolding apply
  apply-IsNamed (registers t u v agent) c h = register_agent-IsNamed t u v agent c h
  apply-IsNamed (unregisters name) c h = unregister_agent-IsNamed name c h
  apply-IsNamed (beats now name) c h = update_agent_heartbeat-IsNamed now name c h
  apply-IsNamed (updates now name state) c h = update_agent_state-IsNamed now name state c h
  apply-IsNamed (swaps w id old_name new_name config) c h =
      swap_agent-IsNamed w id old_name new_name config c h

  apply_all-kept :
      (os : List (Operation V)) (c : HotSwapCoordinator V)
      → IsNamedRegistry c
      → IsNamedRegistry (apply_all os c)
  unfolding apply_all
  apply_all-kept [] c h = h
  apply_all-kept (o ∷ os) c h = apply_all-kept os (apply o c) (apply-IsNamed o c h)

  -- After any registrations, removals, heartbeats, updates and swaps, with any outcome, every name
  -- of the registry leads to a registration of that name.
  pub apply_all-IsNamed :
      (max : ℕ) (os : List (Operation V))
      → IsNamedRegistry (apply_all os (new_hot_swap_coordinator max))
  apply_all-IsNamed max os =
      apply_all-kept os (new_hot_swap_coordinator max)
        (unfold new_hot_swap_coordinator lookup in λ name place l. cc)

-- ===== src/Orchestrator/Hierarchy/Runs.antt =====
-- internal/orchestrator/hierarchy.go: whole runs of the manager, with those of the hot-swap
-- coordinator that it shares.
use cryptofunk.Prelude.{String, List, [], ◌∷◌}
use cryptofunk.Prelude.Dict.{Dict}
use cryptofunk.Orchestrator.HotSwap.Run.{Operation, apply}
use cryptofunk.Orchestrator.Hierarchy.{
  ActivationCondition, SubAgentResult, HierarchyManager, Facilities,
}
use cryptofunk.Orchestrator.Hierarchy.Situations.{Posted, assess_situation}
use cryptofunk.Orchestrator.Hierarchy.Members.{
  create_meta_agent, add_sub_agent, remove_sub_agent, update_sub_agent_weight,
}
use cryptofunk.Orchestrator.Hierarchy.Decisions.{aggregate_results}

-- The methods that change something, with what they are called on, and those of the coordinator.
pub data HierarchyCall (F V : Type 0) : Type 0 where
  creates : Facilities F V → String → String → Dict V → HierarchyCall F V
  adds : Facilities F V → String → String → F → List (ActivationCondition F V) → HierarchyCall F V
  removes : Facilities F V → String → String → HierarchyCall F V
  reweighs : String → String → F → HierarchyCall F V
  assesses : Facilities F V → String → Posted F V → Posted F V → HierarchyCall F V
  aggregates : Facilities F V → String → List (SubAgentResult F V) → HierarchyCall F V
  coordinates : Operation V → HierarchyCall F V

module _ {F V : Type 0} where
  unfoldable pub call : HierarchyCall F V → HierarchyManager F V → HierarchyManager F V
  call (creates w name agent_type config) hm = (create_meta_agent w name agent_type config hm).0
  call (adds w name sub weight conditions) hm = (add_sub_agent w name sub weight conditions hm).0
  call (removes w name sub) hm = (remove_sub_agent w name sub hm).0
  call (reweighs name sub weight) hm = (update_sub_agent_weight name sub weight hm).0
  call (assesses w name market portfolio) hm = (assess_situation w name market portfolio hm).0
  call (aggregates w name results) hm = (aggregate_results w name results hm).0
  call (coordinates o) hm = record hm { hot_swap = apply o hm.hot_swap }

  unfoldable pub call_each : List (HierarchyCall F V) → HierarchyManager F V → HierarchyManager F V
  call_each [] hm = hm
  call_each (c ∷ cs) hm = call_each cs (call c hm)

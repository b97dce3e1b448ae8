-- ===== src/Orchestrator/Hierarchy/Members.antt =====
-- internal/orchestrator/hierarchy.go: how meta-agents are created, and how sub-agents join and leave
-- them. The pointers to meta-agents, sub-agents and nodes stay inside the manager, so they are
-- values here; a write through one is a new value under its name.
use cryptofunk.Prelude.{
  ℕ, String, str_eq, pos, Bool, true, false, not, none, some, List, [], ◌∷◌, ◌++◌, ◌*◌,
  if◌then◌else◌, length, keep, Result, ok, err,
}
use cryptofunk.Prelude.Dict.{Dict, lookup, insert, erase}
use cryptofunk.Orchestrator.HotSwap.{AgentSpec, AgentRegistration, register_agent, agent_of}
use cryptofunk.Orchestrator.Hierarchy.{
  ActivationCondition, SubAgentInfo, MetaAgent, HierarchyNode, HierarchyManager, HierarchyError,
  meta_agent_exists, meta_agent_not_registered, meta_agent_not_found, sub_agent_not_registered,
  sub_agent_already_added, sub_agent_not_found, delegation_best_fit, aggregation_weighted,
  Facilities, state_updated, state_created, registered, heartbeat, performance_updated,
  node_created, node_updated, member_added, parent_updated,
}

module _ {F V : Type 0} where
  abbrev pub meta_agent_spec : Facilities F V → String → String → Dict V → AgentSpec V
  meta_agent_spec w name agent_type config = record {
    name = name;
    type_ = agent_type;
    version = "1.0.0";
    capabilities = "coordination" ∷ "aggregation" ∷ "delegation" ∷ [];
    subscriptions = [];
    state = some record {
      memory = [];
      pending_tasks = [];
      active_task = none;
      history = [];
      configuration = config;
      performance_metrics = none;
      last_updated = w.clock state_updated;
    };
    metadata = some [];
    message_count = pos 0;
    error_count = pos 0;
  }

  abbrev pub new_meta_agent : Facilities F V → ℕ → Dict V → MetaAgent F V
  new_meta_agent w place config = record {
    registration = place;
    sub_agents = [];
    delegation_policy = delegation_best_fit;
    aggregation_policy = aggregation_weighted;
    resource_limits = record {
      max_active_sub_agents = 10;
      max_concurrent_tasks = 100;
      task_timeout = 5 * 60 * 1000000000;
    };
    current_situation = none;
    decisions = [];
    performance = record {
      total_decisions = 0;
      successful_decisions = 0;
      failed_decisions = 0;
      average_confidence = w.floats.of_nat 0;
      last_updated = w.clock performance_updated;
    };
    config = config;
  }

  abbrev pub new_node : Facilities F V → String → ℕ → String → Bool → HierarchyNode
  new_node w name level parent is_meta = record {
    agent_name = name;
    level = level;
    parent_name = parent;
    children = [];
    is_meta_agent = is_meta;
    created_at = w.clock node_created;
    updated_at = w.clock node_updated;
  }

  -- `CreateMetaAgent`; the coordinator stores the registration at the end of its store.
  unfoldable pub create_meta_agent :
      Facilities F V
      → String
      → String
      → Dict V
      → HierarchyManager F V
      → HierarchyManager F V × Result HierarchyError (MetaAgent F V)
  unfolding register_agent lookup insert
  create_meta_agent w name agent_type config hm = elim (lookup name hm.meta_agents) [
    | some _ ↦ (hm, err (meta_agent_exists name))
    | none ↦
        let place = length hm.hot_swap.registrations in
        let (hot_swap, result) =
          register_agent (w.clock state_created) (w.clock registered) (w.clock heartbeat)
            (meta_agent_spec w name agent_type config) hm.hot_swap in
        elim result [
          | err e ↦ (record hm { hot_swap = hot_swap }, err (meta_agent_not_registered e))
          | ok _ ↦ (
            record {
              hot_swap = hot_swap;
              meta_agents = insert name (new_meta_agent w place config) hm.meta_agents;
              hierarchy = insert name (new_node w name 1 "" true) hm.hierarchy;
            },
            ok (new_meta_agent w place config),
          )
        ]
  ]

  abbrev pub is_named : String → SubAgentInfo F V → Bool
  is_named name agent = str_eq agent.agent_name name

  abbrev pub has_member : String → List (SubAgentInfo F V) → Bool
  has_member name [] = false
  has_member name (a ∷ others) =
      let rest = has_member name others in if is_named name a then true else rest

  abbrev pub new_member :
      Facilities F V
      → AgentRegistration V
      → String
      → F
      → List (ActivationCondition F V)
      → SubAgentInfo F V
  new_member w agent name weight conditions = record {
    agent_name = name;
    agent_type = agent.type_;
    active = true;
    weight = weight;
    capabilities = agent.capabilities;
    conditions = conditions;
    performance = record {
      tasks_assigned = 0;
      tasks_completed = 0;
      tasks_failed = 0;
      average_latency = 0;
      average_accuracy = w.floats.of_nat 1;
      last_task_at = none;
    };
    added_at = w.clock member_added;
    last_active = none;
    metadata = [];
  }

  -- A write to the children of a node, if there is one.
  unfoldable pub update_children :
      Facilities F V
      → (List String → List String)
      → String
      → Dict HierarchyNode
      → Dict HierarchyNode
  unfolding lookup insert
  update_children w f name hierarchy = elim (lookup name hierarchy) [
    | none ↦ hierarchy
    | some node ↦
        insert name
          (record node { children = f node.children; updated_at = w.clock parent_updated })
          hierarchy
  ]

  -- A node for a sub-agent, if there is none.
  unfoldable pub ensure_node :
      Facilities F V → String → String → Dict HierarchyNode → Dict HierarchyNode
  unfolding lookup insert
  ensure_node w name parent hierarchy = elim (lookup name hierarchy) [
    | some _ ↦ hierarchy
    | none ↦ insert name (new_node w name 2 parent false) hierarchy
  ]

  abbrev pub with_members :
      String → MetaAgent F V → List (SubAgentInfo F V) → Dict (MetaAgent F V) → Dict (MetaAgent F V)
  with_members name meta members metas = insert name (record meta { sub_agents = members }) metas

  unfoldable pub add_sub_agent :
      Facilities F V
      → String
      → String
      → F
      → List (ActivationCondition F V)
      → HierarchyManager F V
      → HierarchyManager F V × Result HierarchyError (Unit {0})
  unfolding lookup insert agent_of update_children ensure_node
  add_sub_agent w name sub weight conditions hm = elim (lookup name hm.meta_agents) [
    | none ↦ (hm, err (meta_agent_not_found name))
    | some meta ↦ elim (agent_of sub hm.hot_swap) [
      | none ↦ (hm, err (sub_agent_not_registered sub))
      | some agent ↦
          if has_member sub meta.sub_agents then (hm, err (sub_agent_already_added sub name)) else (
            record hm {
              meta_agents =
                  with_members name meta
                    (meta.sub_agents ++ new_member w agent sub weight conditions ∷ [])
                    hm.meta_agents;
              hierarchy =
                  ensure_node w sub name
                    (update_children w (λ names. names ++ sub ∷ []) name hm.hierarchy);
            },
            ok tt,
          )
    ]
  ]

  -- `RemoveSubAgent`, which deletes the node of the name whatever it is.
  unfoldable pub remove_sub_agent :
      Facilities F V
      → String
      → String
      → HierarchyManager F V
      → HierarchyManager F V × Result HierarchyError (Unit {0})
  unfolding lookup insert erase update_children
  remove_sub_agent w name sub hm = elim (lookup name hm.meta_agents) [
    | none ↦ (hm, err (meta_agent_not_found name))
    | some meta ↦
        if has_member sub meta.sub_agents
        then (
          record hm {
            meta_agents =
                with_members name meta (keep (λ a. not (is_named sub a)) meta.sub_agents)
                  hm.meta_agents;
            hierarchy = erase sub (
                update_children w (λ names. keep (λ n. not (str_eq n sub)) names) name
                  hm.hierarchy);
          },
          ok tt,
        )
        else (hm, err (sub_agent_not_found sub name))
  ]

  -- The first sub-agent of the name gets the weight.
  abbrev pub reweigh : String → F → List (SubAgentInfo F V) → List (SubAgentInfo F V)
  reweigh name weight [] = []
  reweigh name weight (a ∷ others) =
      let rest = reweigh name weight others in
      if is_named name a then record a { weight = weight } ∷ others else a ∷ rest

  unfoldable pub update_sub_agent_weight :
      String
      → String
      → F
      → HierarchyManager F V
      → HierarchyManager F V × Result HierarchyError (Unit {0})
  unfolding lookup insert
  update_sub_agent_weight name sub weight hm = elim (lookup name hm.meta_agents) [
    | none ↦ (hm, err (meta_agent_not_found name))
    | some meta ↦
        if has_member sub meta.sub_agents
        then (
          record hm {
            meta_agents =
                with_members name meta (reweigh sub weight meta.sub_agents) hm.meta_agents;
          },
          ok tt,
        )
        else (hm, err (sub_agent_not_found sub name))
  ]

  unfoldable pub get_sub_agents :
      String → HierarchyManager F V → Result HierarchyError (List (SubAgentInfo F V))
  unfolding lookup
  get_sub_agents name hm = elim (lookup name hm.meta_agents) [
    | none ↦ err (meta_agent_not_found name)
    | some meta ↦ ok meta.sub_agents
  ]

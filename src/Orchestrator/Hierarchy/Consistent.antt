-- ===== src/Orchestrator/Hierarchy/Consistent.antt =====
-- internal/orchestrator/hierarchy.go: what holds of meta-agents and nodes after any calls.
use cryptofunk.Prelude.{
  suc, ◌+◌, String, str_eq, true, not, ◌≡◌, refl, subst, ◌⊎◌, inl, inr, Bool-cases, Option-cases,
  some, List, [], ◌∷◌, ◌++◌, length, length-append, keep, arith, Result, ok, err,
}
use cryptofunk.Prelude.Dict.{
  Dict, lookup, insert, erase, lookup-insert, lookup-erase, Entries-insert, Entries-lookup,
}
use cryptofunk.Orchestrator.HotSwap.{agent_of, register_agent, HotSwapCoordinator}
use cryptofunk.Orchestrator.Hierarchy.{
  state_created, registered, heartbeat, ActivationCondition, MetaDecision, MetaAgent, HierarchyNode,
  HierarchyManager, Facilities, new_hierarchy_manager, MetaAgentPerformance,
}
use cryptofunk.Orchestrator.Hierarchy.Situations.{assess_situation, situation_of}
use cryptofunk.Orchestrator.Hierarchy.Members.{
  create_meta_agent, new_meta_agent, meta_agent_spec, new_node, is_named, has_member, new_member,
  add_sub_agent, remove_sub_agent, reweigh, update_sub_agent_weight,
}
use cryptofunk.Orchestrator.Hierarchy.Decisions.{decide, update_performance, aggregate_results}
use cryptofunk.Orchestrator.Hierarchy.Runs.{
  HierarchyCall, creates, adds, removes, reweighs, assesses, aggregates, coordinates, call,
  call_each,
}
use cryptofunk.Orchestrator.Hierarchy.Names.{
  names_of, DistinctMembers-append, DistinctMembers-keep, DistinctMembers-reweigh, names-append,
  names-keep, names-reweigh,
}
use cryptofunk.Orchestrator.Hierarchy.Nodes.{
  IsCounted, IsOrderly, NodesAgree, IsConsistent, lookup-ensure_node, NodesAgree-insert,
  NodesAgree-members,
}

Result-cases : {E A : Type 0} (r : Result E A) → ((a : A) × (r ≡ ok a)) ⊎ ((e : E) × (r ≡ err e))
Result-cases (ok a) = inl (a, refl)
Result-cases (err e) = inr (e, refl)

module _ {F V : Type 0} where
  performance_total :
      (w : Facilities F V) (c : F) (p : MetaAgentPerformance F)
      → (update_performance w c p).total_decisions ≡ suc p.total_decisions
  unfolding update_performance
  performance_total w c p = refl

  performance_sum :
      (w : Facilities F V) (c : F) (p : MetaAgentPerformance F)
      → p.successful_decisions + p.failed_decisions ≡ p.total_decisions
      → let p' = update_performance w c p in
        p'.successful_decisions + p'.failed_decisions ≡ p'.total_decisions
  unfolding update_performance
  performance_sum w c p h = elim (Bool-cases (w.floats.lt (w.floats.ratio 5 10) c)) [
    | inl e ↦ rw e (omega (arith, h))
    | inr e ↦ rw e (omega (arith, h))
  ]

  create-IsConsistent :
      (w : Facilities F V) (name agent_type : String) (config : Dict V) (hm : HierarchyManager F V)
      → IsConsistent hm
      → IsConsistent (create_meta_agent w name agent_type config hm).0
  unfolding create_meta_agent
  create-IsConsistent w name agent_type config hm (orderly, agree) =
      let place = length hm.hot_swap.registrations in
      let out =
        register_agent (w.clock state_created) (w.clock registered) (w.clock heartbeat)
          (meta_agent_spec w name agent_type config) hm.hot_swap in
      let made = new_meta_agent w place config in
      elim (Option-cases (lookup name hm.meta_agents)) [
        | inr (old, g) ↦ rw (g, create_meta_agent) (orderly, agree)
        | inl g ↦ elim (Result-cases out.1) [
          | inr (e, r) ↦ rw (g, r, create_meta_agent) (orderly, agree)
          | inl (t, r) ↦
              rw (g, r, create_meta_agent)
                (
                  Entries-insert (λ n meta. IsOrderly meta) name made hm.meta_agents
                      (tt, (omega arith, refl)) orderly,
                  λ other node l m.
                      created name (new_node w name 1 "" true) made hm.meta_agents hm.hierarchy refl
                        agree other node l m,
                )
        ]
      ]
    where
      created :
          (name : String) (fresh : HierarchyNode) (made : MetaAgent F V)
          (metas : Dict (MetaAgent F V)) (nodes : Dict HierarchyNode)
          → fresh.children ≡ names_of made.sub_agents
          → NodesAgree metas nodes
          → NodesAgree (insert name made metas) (insert name fresh nodes)
      created name fresh made metas nodes same agree other node l m =
          let l' = rw (lookup-insert name other fresh nodes) at l in
          elim (Bool-cases (str_eq name other)) [
            | inl e ↦
                let was : fresh ≡ node = cc (rw e at l') in
                (
                  made,
                  rw (lookup-insert name other made metas, e),
                  subst (λ x. x.children ≡ names_of made.sub_agents) was same,
                )
            | inr e ↦
                let (meta, found, children) = agree other node (rw e at l') m in
                (meta, rw (lookup-insert name other made metas, e) found, children)
          ]

  add-IsConsistent :
      (w : Facilities F V) (name sub : String) (weight : F)
      (conditions : List (ActivationCondition F V)) (hm : HierarchyManager F V)
      → IsConsistent hm
      → IsConsistent (add_sub_agent w name sub weight conditions hm).0
  unfolding add_sub_agent
  add-IsConsistent w name sub weight conditions hm (orderly, agree) =
      elim (Option-cases (lookup name hm.meta_agents)) [
        | inl g ↦ rw (g, add_sub_agent) (orderly, agree)
        | inr (meta, g) ↦ elim (Option-cases (agent_of sub hm.hot_swap)) [
          | inl n ↦ rw (g, n, add_sub_agent) (orderly, agree)
          | inr (agent, n) ↦ elim (Bool-cases (has_member sub meta.sub_agents)) [
            | inl there ↦ rw (g, n, there, add_sub_agent) (orderly, agree)
            | inr free ↦
                let member = new_member w agent sub weight conditions in
                let (distinct, counted) =
                  Entries-lookup (λ n m. IsOrderly m) name hm.meta_agents orderly g in
                let joined =
                  NodesAgree-members w (λ names. names ++ sub ∷ []) name meta
                    (meta.sub_agents ++ member ∷ []) hm.meta_agents hm.hierarchy g
                    (names-append meta.sub_agents member) agree in
                rw (g, n, free, add_sub_agent)
                  (
                    Entries-insert (λ n m. IsOrderly m) name _ hm.meta_agents
                        (DistinctMembers-append meta.sub_agents member distinct free, counted)
                        orderly,
                    λ other node l m.
                        joined other node (lookup-ensure_node w sub name other _ node l m) m,
                  )
          ]
        ]
      ]

  remove-IsConsistent :
      (w : Facilities F V) (name sub : String) (hm : HierarchyManager F V)
      → IsConsistent hm
      → IsConsistent (remove_sub_agent w name sub hm).0
  unfolding remove_sub_agent
  remove-IsConsistent w name sub hm (orderly, agree) =
      elim (Option-cases (lookup name hm.meta_agents)) [
        | inl g ↦ rw (g, remove_sub_agent) (orderly, agree)
        | inr (meta, g) ↦ elim (Bool-cases (has_member sub meta.sub_agents)) [
          | inr absent ↦ rw (g, absent, remove_sub_agent) (orderly, agree)
          | inl there ↦
              let stay = keep (λ a. not (is_named sub a)) meta.sub_agents in
              let (distinct, counted) =
                Entries-lookup (λ n m. IsOrderly m) name hm.meta_agents orderly g in
              let left =
                NodesAgree-members w (λ names. keep (λ n. not (str_eq n sub)) names) name meta stay
                  hm.meta_agents hm.hierarchy g (names-keep sub meta.sub_agents) agree in
              rw (g, there, remove_sub_agent)
                (
                  Entries-insert (λ n m. IsOrderly m) name _ hm.meta_agents
                      (DistinctMembers-keep _ meta.sub_agents distinct, counted) orderly,
                  λ other node l m. left other node (still_there sub other _ node l) m,
                )
        ]
      ]
    where
      still_there :
          (gone other : String) (nodes : Dict HierarchyNode) (node : HierarchyNode)
          → lookup other (erase gone nodes) ≡ some node
          → lookup other nodes ≡ some node
      still_there gone other nodes node l = elim (Bool-cases (str_eq gone other)) [
        | inl e ↦ cc (rw (lookup-erase gone other nodes, e) at l)
        | inr e ↦ rw (lookup-erase gone other nodes, e) at l
      ]

  -- A meta-agent that keeps its sub-agents' names is written back.
  update-IsConsistent :
      (name : String) (old new : MetaAgent F V) (hm : HierarchyManager F V)
      → lookup name hm.meta_agents ≡ some old
      → names_of new.sub_agents ≡ names_of old.sub_agents
      → (IsOrderly old → IsOrderly new)
      → IsConsistent hm
      → IsConsistent (record hm { meta_agents = insert name new hm.meta_agents })
  update-IsConsistent name old new hm g same keeps (orderly, agree) = (
    Entries-insert (λ n m. IsOrderly m) name new hm.meta_agents
        (keeps (Entries-lookup (λ n m. IsOrderly m) name hm.meta_agents orderly g)) orderly,
    NodesAgree-insert name old new hm.meta_agents hm.hierarchy g same agree,
  )

  call-IsConsistent :
      (c : HierarchyCall F V) (hm : HierarchyManager F V)
      → IsConsistent hm
      → IsConsistent (call c hm)
  unfolding call update_sub_agent_weight assess_situation aggregate_results
  call-IsConsistent (creates w name agent_type config) hm h =
      create-IsConsistent w name agent_type config hm h
  call-IsConsistent (adds w name sub weight conditions) hm h =
      add-IsConsistent w name sub weight conditions hm h
  call-IsConsistent (removes w name sub) hm h = remove-IsConsistent w name sub hm h
  call-IsConsistent (reweighs name sub weight) hm h =
      elim (Option-cases (lookup name hm.meta_agents)) [
        | inl g ↦ rw (g, call, update_sub_agent_weight) h
        | inr (meta, g) ↦ elim (Bool-cases (has_member sub meta.sub_agents)) [
          | inr absent ↦ rw (g, absent, call, update_sub_agent_weight) h
          | inl there ↦
              rw (g, there, call, update_sub_agent_weight)
                (update-IsConsistent name meta
                  (record meta { sub_agents = reweigh sub weight meta.sub_agents }) hm g
                  (names-reweigh sub weight meta.sub_agents)
                  (λ o. (DistinctMembers-reweigh sub weight meta.sub_agents o.0, o.1)) h)
        ]
      ]
  call-IsConsistent (assesses w name market portfolio) hm h =
      elim (Option-cases (lookup name hm.meta_agents)) [
        | inl g ↦ rw (g, call, assess_situation) h
        | inr (meta, g) ↦
            rw (g, call, assess_situation)
              (update-IsConsistent name meta
                (record meta { current_situation = some (situation_of w market portfolio) }) hm g
                refl (λ o. o) h)
      ]
  call-IsConsistent (aggregates w name results) hm h =
      elim (Option-cases (lookup name hm.meta_agents)) [
        | inl g ↦ rw (g, call, aggregate_results) h
        | inr (meta, g) ↦
            let decision = decide w meta results meta.aggregation_policy in
            rw (g, call, aggregate_results)
              (update-IsConsistent name meta
                (record meta {
                  decisions = meta.decisions ++ decision ∷ [];
                  performance = update_performance w decision.confidence meta.performance;
                })
                hm g refl (λ o. (o.0, counts w meta decision o.1)) h)
      ]
    where
      counts :
          (w : Facilities F V) (meta : MetaAgent F V) (d : MetaDecision F V)
          → IsCounted meta
          → IsCounted (record meta {
            decisions = meta.decisions ++ d ∷ [];
            performance = update_performance w d.confidence meta.performance;
          })
      counts w meta d (sum, size) = (
        performance_sum w d.confidence meta.performance sum,
        omega (
          arith,
          performance_total w d.confidence meta.performance,
          size,
          length-append meta.decisions (d ∷ []),
        ),
      )
  call-IsConsistent (coordinates o) hm h = h

  call_each-kept :
      (cs : List (HierarchyCall F V)) (hm : HierarchyManager F V)
      → IsConsistent hm
      → IsConsistent (call_each cs hm)
  unfolding call_each
  call_each-kept [] hm h = h
  call_each-kept (c ∷ cs) hm h = call_each-kept cs (call c hm) (call-IsConsistent c hm h)

  -- After any calls of the manager, and any operations on the hot-swap coordinator between them: no
  -- meta-agent has two sub-agents of one name; its decisions are as many as its counter says, and
  -- the successful and the failed ones add up to them; and every node that is marked as a
  -- meta-agent's belongs to one, whose sub-agents, in order, are the children of the node.
  pub call_each-IsConsistent :
      (hot_swap : HotSwapCoordinator V) (cs : List (HierarchyCall F V))
      → IsConsistent (call_each cs (new_hierarchy_manager hot_swap))
  unfolding new_hierarchy_manager lookup
  call_each-IsConsistent hot_swap cs =
      call_each-kept cs (new_hierarchy_manager hot_swap) (tt, λ name node l m. cc)

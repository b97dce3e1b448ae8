-- ===== src/Orchestrator/Hierarchy/Decisions.antt =====
-- internal/orchestrator/hierarchy.go: how a meta-agent delegates a task, and how it makes one
-- decision of the results.
use cryptofunk.Prelude.{
  ℕ, suc, ◌-◌, ltb, String, str_eq, Bool, true, false, Option, none, some, List, [], ◌∷◌, ◌++◌,
  if◌then◌else◌, length, Result, ok, err,
}
use cryptofunk.Prelude.Dict.{Dict, lookup, insert}
use cryptofunk.Prelude.Floats.{Floats}
use cryptofunk.Orchestrator.HotSwap.{AgentTask, task_pending}
use cryptofunk.Orchestrator.Hierarchy.{
  DelegationPolicy, delegation_round_robin, delegation_weighted, delegation_best_fit,
  delegation_all, delegation_auction, AggregationPolicy, aggregation_voting, aggregation_weighted,
  aggregation_consensus, aggregation_best_score, aggregation_ensemble, SubAgentInfo, SubAgentResult,
  printed, as_is, no_rationale, weighted_aggregation, ensemble_of_all, no_results, full_consensus,
  no_consensus, majority_vote, best_result_from, MetaDecision, MetaAgentPerformance, MetaAgent,
  TaskAllocation, HierarchyManager, HierarchyError, meta_agent_not_found, Facilities, allocated,
  decided, performance_updated,
}

abbrev pub or_zero : Option ℕ → ℕ
or_zero none = 0
or_zero (some n) = n

abbrev pub majority_from : String × ℕ → Dict ℕ → String × ℕ
majority_from best [] = best
majority_from best ((key, count) ∷ rest) =
    majority_from (if ltb best.1 count then (key, count) else best) rest

module _ {F V : Type 0} where
  unfoldable pub score_agent : Floats F → SubAgentInfo F V → F
  score_agent f agent =
      let p = agent.performance in
      let accurate = f.add agent.weight (f.mul p.average_accuracy (f.ratio 3 10)) in
      let timely =
        if ltb 1000000000 p.average_latency then f.sub accurate (f.ratio 2 10) else accurate in
      if ltb 0 p.tasks_assigned
      then f.add timely
          (f.mul (f.div (f.of_nat p.tasks_completed) (f.of_nat p.tasks_assigned)) (f.ratio 2 10))
      else timely

  -- The loop that keeps the first agent of the highest score.
  unfoldable pub best_from :
      Floats F
      → (SubAgentInfo F V → F)
      → SubAgentInfo F V
      → List (SubAgentInfo F V)
      → SubAgentInfo F V
  best_from f score best [] = best
  best_from f score best (a ∷ others) =
      best_from f score (if f.lt (score best) (score a) then a else best) others

  abbrev pub best_by :
      Floats F → (SubAgentInfo F V → F) → List (SubAgentInfo F V) → Option (SubAgentInfo F V)
  best_by f score [] = none
  best_by f score (a ∷ others) = some (best_from f score a others)

  unfoldable pub select_best_agent : Floats F → List (SubAgentInfo F V) → Option (SubAgentInfo F V)
  unfolding score_agent best_from
  select_best_agent f agents = best_by f (score_agent f) agents

  unfoldable pub weighted_selection : Floats F → List (SubAgentInfo F V) → Option (SubAgentInfo F V)
  unfolding best_from
  weighted_selection f agents = best_by f (λ a. a.weight) agents

  abbrev pub allocation :
      Facilities F V → String → AgentTask V → ℕ → SubAgentInfo F V → TaskAllocation V
  allocation w name task n agent = record {
    task_id = w.new_id n;
    meta_agent = name;
    sub_agent = agent.agent_name;
    task = task;
    allocated_at = w.clock allocated;
    status = task_pending;
  }

  unfoldable pub allocations_from :
      Facilities F V → String → AgentTask V → ℕ → List (SubAgentInfo F V) → List (TaskAllocation V)
  allocations_from w name task n [] = []
  allocations_from w name task n (a ∷ others) =
      allocation w name task n a ∷ allocations_from w name task (suc n) others

  abbrev pub at_most_one :
      Facilities F V → String → AgentTask V → Option (SubAgentInfo F V) → List (TaskAllocation V)
  at_most_one w name task none = []
  at_most_one w name task (some a) = allocation w name task 0 a ∷ []

  abbrev pub first_agent : List (SubAgentInfo F V) → Option (SubAgentInfo F V)
  first_agent [] = none
  first_agent (a ∷ others) = some a

  -- The switch over the policies, which has no case for the auction.
  unfoldable pub allocate :
      Facilities F V
      → String
      → AgentTask V
      → List (SubAgentInfo F V)
      → DelegationPolicy
      → List (TaskAllocation V)
  unfolding allocations_from select_best_agent weighted_selection
  allocate w name task agents delegation_all = allocations_from w name task 0 agents
  allocate w name task agents delegation_best_fit =
      at_most_one w name task (select_best_agent w.floats agents)
  allocate w name task agents delegation_weighted =
      at_most_one w name task (weighted_selection w.floats agents)
  allocate w name task agents delegation_round_robin = at_most_one w name task (first_agent agents)
  allocate w name task agents delegation_auction = []

  unfoldable pub delegate_task :
      Facilities F V
      → String
      → AgentTask V
      → List (SubAgentInfo F V)
      → HierarchyManager F V
      → Result HierarchyError (List (TaskAllocation V))
  unfolding lookup allocate
  delegate_task w name task agents hm = elim (lookup name hm.meta_agents) [
    | none ↦ err (meta_agent_not_found name)
    | some meta ↦ ok (allocate w name task agents meta.delegation_policy)
  ]

  unfoldable pub get_sub_agent_weight : Floats F → String → List (SubAgentInfo F V) → F
  get_sub_agent_weight f name [] = f.of_nat 1
  get_sub_agent_weight f name (a ∷ others) =
      let rest = get_sub_agent_weight f name others in
      if str_eq a.agent_name name then a.weight else rest

  abbrev pub new_decision : Facilities F V → List (SubAgentResult F V) → MetaDecision F V
  new_decision w results = record {
    id = w.new_id 0;
    sub_agent_results = results;
    aggregated_result = none;
    final_decision = none;
    confidence = w.floats.of_nat 0;
    rationale = no_rationale;
    decided_at = w.clock decided;
  }

  -- The total of the weights and the weighted sum of the confidences.
  abbrev pub weighted_from : Floats F → MetaAgent F V → F → F → List (SubAgentResult F V) → F × F
  weighted_from f meta total sum [] = (total, sum)
  weighted_from f meta total sum (r ∷ rs) =
      let weight = get_sub_agent_weight f r.agent_name meta.sub_agents in
      weighted_from f meta (f.add total weight) (f.add sum (f.mul r.confidence weight)) rs

  -- `votes[key]++` for each result
  unfoldable pub votes_from : Facilities F V → Dict ℕ → List (SubAgentResult F V) → Dict ℕ
  unfolding lookup insert
  votes_from w votes [] = votes
  votes_from w votes (r ∷ rs) =
      let key = w.print_result r.result in
      votes_from w (insert key (suc (or_zero (lookup key votes))) votes) rs

  abbrev pub best_result :
      Floats F
      → Option (SubAgentResult F V)
      → List (SubAgentResult F V)
      → Option (SubAgentResult F V)
  best_result f best [] = best
  best_result f none (r ∷ rs) = best_result f (some r) rs
  best_result f (some b) (r ∷ rs) =
      best_result f (some (if f.lt b.confidence r.confidence then r else b)) rs

  abbrev pub all_print_as : Facilities F V → String → List (SubAgentResult F V) → Bool
  all_print_as w text [] = true
  all_print_as w text (r ∷ rs) =
      let rest = all_print_as w text rs in
      if str_eq (w.print_result r.result) text then rest else false

  abbrev pub confidence_from : Floats F → F → List (SubAgentResult F V) → F
  confidence_from f sum [] = sum
  confidence_from f sum (r ∷ rs) = confidence_from f (f.add sum r.confidence) rs

  abbrev pub of_best : MetaDecision F V → Option (SubAgentResult F V) → MetaDecision F V
  of_best d none = d
  of_best d (some b) = record d {
    final_decision = some (as_is b.result);
    confidence = b.confidence;
    rationale = best_result_from b.agent_name;
  }

  abbrev pub of_consensus :
      Facilities F V → MetaDecision F V → List (SubAgentResult F V) → MetaDecision F V
  of_consensus w d [] = record d { rationale = no_results }
  of_consensus w d (r ∷ rs) =
      if all_print_as w (w.print_result r.result) rs
      then record d {
        final_decision = some (as_is r.result);
        confidence = w.floats.of_nat 1;
        rationale = full_consensus;
      }
      else record d { rationale = no_consensus }

  -- The switch over the policies.
  unfoldable pub decide :
      Facilities F V
      → MetaAgent F V
      → List (SubAgentResult F V)
      → AggregationPolicy
      → MetaDecision F V
  unfolding votes_from get_sub_agent_weight
  decide w meta results aggregation_weighted =
      let f = w.floats in
      let (total, sum) = weighted_from f meta (f.of_nat 0) (f.of_nat 0) results in
      record (new_decision w results) {
        confidence = if f.lt (f.of_nat 0) total then f.div sum total else f.of_nat 0;
        rationale = weighted_aggregation;
      }
  decide w meta results aggregation_voting =
      let (majority, most) = majority_from ("", 0) (votes_from w [] results) in
      record (new_decision w results) {
        final_decision = some (printed majority);
        confidence = w.floats.div (w.floats.of_nat most) (w.floats.of_nat (length results));
        rationale = majority_vote most (length results);
      }
  decide w meta results aggregation_best_score =
      of_best (new_decision w results) (best_result w.floats none results)
  decide w meta results aggregation_consensus = of_consensus w (new_decision w results) results
  decide w meta results aggregation_ensemble =
      let f = w.floats in
      record (new_decision w results) {
        aggregated_result = some results;
        confidence =
            if ltb 0 (length results)
            then f.div (confidence_from f (f.of_nat 0) results) (f.of_nat (length results))
            else f.of_nat 0;
        rationale = ensemble_of_all;
      }

  unfoldable pub update_performance :
      Facilities F V → F → MetaAgentPerformance F → MetaAgentPerformance F
  update_performance w confidence p =
      let f = w.floats in
      let total = suc p.total_decisions in
      let good = f.lt (f.ratio 5 10) confidence in
      record {
        total_decisions = total;
        successful_decisions = if good then suc p.successful_decisions else p.successful_decisions;
        failed_decisions = if good then p.failed_decisions else suc p.failed_decisions;
        average_confidence =
            f.div (f.add (f.mul p.average_confidence (f.of_nat (total - 1))) confidence)
              (f.of_nat total);
        last_updated = w.clock performance_updated;
      }

  unfoldable pub aggregate_results :
      Facilities F V
      → String
      → List (SubAgentResult F V)
      → HierarchyManager F V
      → HierarchyManager F V × Result HierarchyError (MetaDecision F V)
  unfolding lookup insert decide update_performance
  aggregate_results w name results hm = elim (lookup name hm.meta_agents) [
    | none ↦ (hm, err (meta_agent_not_found name))
    | some meta ↦
        let decision = decide w meta results meta.aggregation_policy in
        let meta' = record meta {
          decisions = meta.decisions ++ decision ∷ [];
          performance = update_performance w decision.confidence meta.performance;
        } in
        (record hm { meta_agents = insert name meta' hm.meta_agents }, ok decision)
  ]

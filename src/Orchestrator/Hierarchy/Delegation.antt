-- ===== src/Orchestrator/Hierarchy/Delegation.antt =====
-- internal/orchestrator/hierarchy.go: who gets a task.
use std.Path.{fun_ext}
use cryptofunk.Prelude.{
  ltb, sym, ◌∙◌, String, Bool, true, false, ◌≡◌, refl, ap, subst, inl, inr, Bool-cases, some, List,
  [], ◌∷◌, if◌then◌else◌, All, ok,
}
use cryptofunk.Prelude.Dict.{lookup}
use cryptofunk.Prelude.Floats.{Floats}
use cryptofunk.Orchestrator.HotSwap.{AgentTask}
use cryptofunk.Orchestrator.Consensus.Award.{In}
use cryptofunk.Orchestrator.Hierarchy.{
  SubAgentInfo, MetaAgent, HierarchyManager, Facilities, DelegationPolicy, delegation_round_robin,
  delegation_weighted, delegation_best_fit, delegation_all, delegation_auction,
}
use cryptofunk.Orchestrator.Hierarchy.Decisions.{
  score_agent, best_from, select_best_agent, weighted_selection, allocation, allocate,
  delegate_task,
}

-- The order of float64 without NaN.
pub record IsOrder {F : Type 0} (f : Floats F) : Type 0 where
  pub irrefl : (x : F) → f.lt x x ≡ false
  pub trans : (x y z : F) → f.lt x y ≡ true → f.lt y z ≡ true → f.lt x z ≡ true
  pub not_trans : (x y z : F) → f.lt x y ≡ false → f.lt y z ≡ false → f.lt x z ≡ false

In-behind : {A : Type 0} (x y z : A) (l : List A) → In x (y ∷ l) → In x (y ∷ z ∷ l)
In-behind x y z l (inl e) = inl e
In-behind x y z l (inr h) = inr (inr h)

module _ {F V : Type 0} (f : Floats F) (order : IsOrder f) (score : SubAgentInfo F V → F) where
  -- One of the agents that none of them beats.
  abbrev IsTop : SubAgentInfo F V → List (SubAgentInfo F V) → Type 0
  IsTop best agents = In best agents × All (λ a. f.lt (score best) (score a) ≡ false) agents

  best_from-next :
      (b a : SubAgentInfo F V) (others : List (SubAgentInfo F V)) (kept : Bool)
      → f.lt (score b) (score a) ≡ kept
      → best_from f score (if kept then a else b) others ≡ best_from f score b (a ∷ others)
  unfolding best_from
  best_from-next b a others kept e = rw e

  -- The loop ends with such an agent.
  best_from-IsTop :
      (b : SubAgentInfo F V) (agents : List (SubAgentInfo F V))
      → IsTop (best_from f score b agents) (b ∷ agents)
  unfolding best_from
  best_from-IsTop b [] = (inl refl, (order.irrefl (score b), tt))
  best_from-IsTop b (a ∷ others) = elim (Bool-cases (f.lt (score b) (score a))) [
    | inl e ↦
        let (among, (beats, rest)) = best_from-IsTop a others in
        let best = best_from f score a others in
        let above : f.lt (score best) (score b) ≡ false =
          elim (Bool-cases (f.lt (score best) (score b))) [
            | inl t ↦ cc (order.trans (score best) (score b) (score a) t e, beats)
            | inr n ↦ n
          ] in
        subst (λ r. IsTop r (b ∷ a ∷ others)) (best_from-next b a others true e)
          (inr among, (above, (beats, rest)))
    | inr e ↦
        let (among, (beats, rest)) = best_from-IsTop b others in
        let best = best_from f score b others in
        let above = order.not_trans (score best) (score b) (score a) beats e in
        subst (λ r. IsTop r (b ∷ a ∷ others)) (best_from-next b a others false e)
          (In-behind best b a others among, (beats, (above, rest)))
  ]

module _ {F V : Type 0} where
  -- The weight, 0.3 of the accuracy, 0.2 less for a latency over a second, and 0.2 of the share of
  -- completed tasks once there is a task. Neither the task nor the capabilities play a part.
  abbrev timely : Floats F → Bool → SubAgentInfo F V → F
  timely f false a = f.add a.weight (f.mul a.performance.average_accuracy (f.ratio 3 10))
  timely f true a =
      f.sub (f.add a.weight (f.mul a.performance.average_accuracy (f.ratio 3 10))) (f.ratio 2 10)

  abbrev rated : Floats F → Bool → Bool → SubAgentInfo F V → F
  rated f slow false a = timely f slow a
  rated f slow true a = f.add (timely f slow a) (
      f.mul (f.div (f.of_nat a.performance.tasks_completed) (f.of_nat a.performance.tasks_assigned))
        (f.ratio 2 10))

  abbrev pub suitability : Floats F → SubAgentInfo F V → F
  suitability f a =
      rated f (ltb 1000000000 a.performance.average_latency) (ltb 0 a.performance.tasks_assigned) a

  score_agent-suitability :
      (f : Floats F) (a : SubAgentInfo F V) → score_agent f a ≡ suitability f a
  unfolding score_agent
  score_agent-suitability f a = elim (Bool-cases (ltb 1000000000 a.performance.average_latency)) [
    | inl e ↦ elim (Bool-cases (ltb 0 a.performance.tasks_assigned)) [
      | inl g ↦ rw (e, g) refl
      | inr g ↦ rw (e, g) refl
    ]
    | inr e ↦ elim (Bool-cases (ltb 0 a.performance.tasks_assigned)) [
      | inl g ↦ rw (e, g) refl
      | inr g ↦ rw (e, g) refl
    ]
  ]

  -- What a policy that picks one agent goes by.
  abbrev pub Measures : Floats F → DelegationPolicy → (SubAgentInfo F V → F) → Type 0
  Measures f delegation_best_fit score = score ≡ suitability f
  Measures f delegation_weighted score = score ≡ (λ a. a.weight)
  Measures f delegation_round_robin score = ⊥
  Measures f delegation_all score = ⊥
  Measures f delegation_auction score = ⊥

  allocate-best :
      (w : Facilities F V) (name : String) (task : AgentTask V) (policy : DelegationPolicy)
      (score : SubAgentInfo F V → F) (a : SubAgentInfo F V) (others : List (SubAgentInfo F V))
      → Measures w.floats policy score
      → allocate w name task (a ∷ others) policy
        ≡ allocation w name task 0 (best_from w.floats score a others) ∷ []
  unfolding allocate select_best_agent weighted_selection
  allocate-best w name task delegation_best_fit score a others m =
      ap (λ g. allocation w name task 0 (best_from w.floats g a others) ∷ [])
        (fun_ext (score_agent-suitability w.floats) ∙ sym m)
  allocate-best w name task delegation_weighted score a others m = rw m
  allocate-best w name task delegation_round_robin score a others m = absurd m
  allocate-best w name task delegation_all score a others m = absurd m
  allocate-best w name task delegation_auction score a others m = absurd m

  -- Under the policies best_fit and weighted, with a task for at least one selected agent and an
  -- order of the floats (no NaN): `DelegateTask` makes one allocation, for a selected agent that no
  -- other one exceeds, under best_fit in its weight corrected by accuracy, latency and completed
  -- tasks, and under weighted in its weight. Chance, capabilities and the task play no part.
  pub delegate_task-IsBest :
      (w : Facilities F V) (name : String) (task : AgentTask V) (hm : HierarchyManager F V)
      (meta : MetaAgent F V) (score : SubAgentInfo F V → F) (a : SubAgentInfo F V)
      (others : List (SubAgentInfo F V))
      → IsOrder w.floats
      → lookup name hm.meta_agents ≡ some meta
      → Measures w.floats meta.delegation_policy score
      → (best : SubAgentInfo F V) × In best (a ∷ others)
        × All (λ b. w.floats.lt (score best) (score b) ≡ false) (a ∷ others)
        × (delegate_task w name task (a ∷ others) hm ≡ ok (allocation w name task 0 best ∷ []))
  unfolding delegate_task
  delegate_task-IsBest w name task hm meta score a others order g m =
      let (among, top) = best_from-IsTop w.floats order score a others in
      (
        best_from w.floats score a others,
        among,
        top,
        rw (g, delegate_task)
            (ap ok (allocate-best w name task meta.delegation_policy score a others m)),
      )

-- ===== src/Orchestrator/Hierarchy/Examples.antt =====
-- Concrete meta-agents for internal/orchestrator/hierarchy.go, with whole numbers for floats.
use cryptofunk.Prelude.{
  ℕ, ◌+◌, ◌-◌, ◌*◌, ◌/◌, ltb, leb, ◌==◌, String, true, false, not, ◌≡◌, refl, pos, none, some, List,
  [], ◌∷◌, if◌then◌else◌, keep, All, arith, ok, eq_iff,
}
use cryptofunk.Prelude.Dict.{insert, lookup, erase}
use cryptofunk.Prelude.Floats.{Floats}
use cryptofunk.Orchestrator.HotSwap.{
  AgentTask, AgentSpec, HotSwapCoordinator, new_hot_swap_coordinator, register_agent,
  registration_of, agent_of, task_pending,
}
use cryptofunk.Orchestrator.HotSwap.Run.{registers, apply}
use cryptofunk.Orchestrator.Consensus.Award.{exchanged, In}
use cryptofunk.Orchestrator.Hierarchy.{
  ActivationCondition, float_value, SubAgentInfo, MetaAgent, Situation, HierarchyManager,
  Facilities, new_hierarchy_manager, delegation_best_fit, aggregation_weighted,
}
use cryptofunk.Orchestrator.Hierarchy.Situations.{
  to_float64, compare_values, field_of, evaluate_condition, evaluate_conditions, select_sub_agents,
}
use cryptofunk.Orchestrator.Hierarchy.Members.{
  create_meta_agent, is_named, has_member, update_children, ensure_node, add_sub_agent,
  remove_sub_agent,
}
use cryptofunk.Orchestrator.Hierarchy.Decisions.{allocation, delegate_task}
use cryptofunk.Orchestrator.Hierarchy.Runs.{
  HierarchyCall, creates, adds, coordinates, call, call_each,
}
use cryptofunk.Orchestrator.Hierarchy.Nodes.{IsConsistent}
use cryptofunk.Orchestrator.Hierarchy.Consistent.{call_each-IsConsistent}
use cryptofunk.Orchestrator.Hierarchy.Removal.{remove_sub_agent-removes}
use cryptofunk.Orchestrator.Hierarchy.Delegation.{IsOrder, suitability, delegate_task-IsBest}
use cryptofunk.Orchestrator.Hierarchy.Selection.{IsSelection, select_sub_agents-IsSelection}

abbrev floats : Floats ℕ
floats = record {
  of_nat = λ n. n;
  ratio = λ m n. m;
  add = λ a b. a + b;
  sub = λ a b. a - b;
  mul = λ a b. a * b;
  div = λ a b. a / b;
  sqrt = λ a. a;
  abs = λ a. a;
  max = λ a b. if ltb a b then b else a;
  min = λ a b. if ltb a b then a else b;
  lt = ltb;
  le = leb;
  eq = ◌==◌;
  sort = λ l. l;
}

abbrev heavier_first : SubAgentInfo ℕ ℕ → List (SubAgentInfo ℕ ℕ) → List (SubAgentInfo ℕ ℕ)
heavier_first a [] = a ∷ []
heavier_first a (b ∷ others) =
    let behind_b = heavier_first a others in
    if ltb a.weight b.weight then b ∷ behind_b else a ∷ b ∷ others

abbrev by_weight : List (SubAgentInfo ℕ ℕ) → List (SubAgentInfo ℕ ℕ)
by_weight [] = []
by_weight (a ∷ others) = heavier_first a (by_weight others)

abbrev facilities : Facilities ℕ ℕ
facilities = record {
  floats = floats;
  clock = λ reading. 5;
  hour = 14;
  print_value = λ v. "value";
  print_result = λ v. "result";
  sort_by_weight = by_weight;
  new_id = λ n. "id";
}

abbrev trend : AgentSpec ℕ
trend = record {
  name = "trend";
  type_ = "technical";
  version = "1.0";
  capabilities = "signals" ∷ [];
  subscriptions = [];
  state = none;
  metadata = none;
  message_count = pos 0;
  error_count = pos 0;
}

abbrev coordinator : HotSwapCoordinator ℕ
coordinator = new_hot_swap_coordinator 10

abbrev steady : List (ActivationCondition ℕ ℕ)
steady = record { field_name = "volatility"; operator = "<"; value = float_value 9 } ∷ []

abbrev calls : List (HierarchyCall ℕ ℕ)
calls =
    coordinates (registers 1 2 3 trend)
    ∷ creates facilities "desk" "meta" []
    ∷ creates facilities "floor" "meta" []
    ∷ adds facilities "desk" "trend" 7 steady
    ∷ adds facilities "floor" "desk" 2 []
    ∷ []

abbrev reached : HierarchyManager ℕ ℕ
reached = call_each calls (new_hierarchy_manager coordinator)

call_each-IsConsistent_example : IsConsistent reached
call_each-IsConsistent_example = call_each-IsConsistent coordinator calls

abbrev removed : HierarchyManager ℕ ℕ
removed = (remove_sub_agent facilities "floor" "desk" reached).0

remove_sub_agent-removes_example :
    (meta : MetaAgent ℕ ℕ) × (lookup "floor" reached.meta_agents ≡ some meta)
    × (lookup "floor" removed.meta_agents
        ≡ some (record meta { sub_agents = keep (λ a. not (is_named "desk" a)) meta.sub_agents }))
    × (has_member "desk" (keep (λ a. not (is_named "desk" a)) meta.sub_agents) ≡ false)
    × (lookup "desk" removed.meta_agents ≡ lookup "desk" reached.meta_agents)
    × (lookup "desk" removed.hierarchy ≡ none)
unfolding call_each call apply register_agent registration_of agent_of new_hot_swap_coordinator
    new_hierarchy_manager create_meta_agent add_sub_agent remove_sub_agent update_children
    ensure_node lookup insert erase
remove_sub_agent-removes_example =
    remove_sub_agent-removes facilities "floor" "desk" "desk" reached removed refl
      (λ e. cc ((eq_iff "floor" "desk").1 e))

abbrev member : String → ℕ → SubAgentInfo ℕ ℕ
member name weight = record {
  agent_name = name;
  agent_type = "technical";
  active = true;
  weight = weight;
  capabilities = [];
  conditions = steady;
  performance = record {
    tasks_assigned = 0;
    tasks_completed = 0;
    tasks_failed = 0;
    average_latency = 0;
    average_accuracy = 1;
    last_task_at = none;
  };
  added_at = 1;
  last_active = none;
  metadata = [];
}

abbrev task : AgentTask ℕ
task = record {
  id = "t1";
  type_ = "analysis";
  payload = 0;
  priority = pos 1;
  status = task_pending;
  result = none;
  error_message = "";
  created_at = 1;
  started_at = none;
  completed_at = none;
  metadata = [];
}

ltb_irrefl : (x : ℕ) → ltb x x ≡ false
ltb_irrefl x = ground arith

ltb_trans : (x y z : ℕ) → ltb x y ≡ true → ltb y z ≡ true → ltb x z ≡ true
ltb_trans x y z p q = ground arith

ltb_not_trans : (x y z : ℕ) → ltb x y ≡ false → ltb y z ≡ false → ltb x z ≡ false
ltb_not_trans x y z p q = ground arith

abbrev order : IsOrder floats
order = record { irrefl = ltb_irrefl; trans = ltb_trans; not_trans = ltb_not_trans }

abbrev desk : MetaAgent ℕ ℕ
desk = record {
  registration = 1;
  sub_agents = member "trend" 7 ∷ member "risk" 9 ∷ [];
  delegation_policy = delegation_best_fit;
  aggregation_policy = aggregation_weighted;
  resource_limits = record {
    max_active_sub_agents = 1;
    max_concurrent_tasks = 100;
    task_timeout = 300;
  };
  current_situation = none;
  decisions = [];
  performance = record {
    total_decisions = 0;
    successful_decisions = 0;
    failed_decisions = 0;
    average_confidence = 0;
    last_updated = 5;
  };
  config = [];
}

abbrev staffed : HierarchyManager ℕ ℕ
staffed = record { hot_swap = coordinator; meta_agents = ("desk", desk) ∷ []; hierarchy = [] }

delegate_task-IsBest_example :
    (best : SubAgentInfo ℕ ℕ) × In best (member "trend" 7 ∷ member "risk" 9 ∷ [])
    × All
        (λ b. ltb (suitability floats best) (suitability floats b) ≡ false)
        (member "trend" 7 ∷ member "risk" 9 ∷ [])
    × (delegate_task facilities "desk" task (member "trend" 7 ∷ member "risk" 9 ∷ []) staffed
        ≡ ok (allocation facilities "desk" task 0 best ∷ []))
unfolding lookup
delegate_task-IsBest_example =
    delegate_task-IsBest facilities "desk" task staffed desk (suitability floats) (member "trend" 7)
      (member "risk" 9 ∷ []) order refl refl

abbrev calm : Situation ℕ ℕ
calm = record {
  market_conditions = [];
  portfolio_state = [];
  volatility = 3;
  trend_strength = 4;
  liquidity_level = "high";
  sentiment_score = 5;
  time_of_day = 14;
  assessed_at = 5;
}

select_sub_agents-IsSelection_example : IsSelection facilities calm desk (member "risk" 9 ∷ [])
unfolding select_sub_agents evaluate_conditions evaluate_condition field_of compare_values
    to_float64 lookup
select_sub_agents-IsSelection_example =
    select_sub_agents-IsSelection facilities "desk" calm staffed desk (member "risk" 9 ∷ [])
      (exchanged _ _, ((refl, tt), (tt, tt))) refl refl

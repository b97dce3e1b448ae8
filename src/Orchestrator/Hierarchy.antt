-- ===== src/Orchestrator/Hierarchy.antt =====
-- internal/orchestrator/hierarchy.go: the data of meta-agents and their sub-agents. `F` stands for
-- float64; `V` for the values that are only carried, printed or compared in print. A meta-agent
-- embeds a pointer to its registration, which is a place in the store of the hot-swap coordinator.
-- Counters and limits are natural numbers.
pub mod Situations
pub mod Members
pub mod Decisions
pub mod Runs
pub mod Names
pub mod Nodes
pub mod Consistent
pub mod Removal
pub mod Delegation
pub mod Selection
pub mod Examples
use cryptofunk.Prelude.{ℕ, ℤ, String, Bool, Option, List, []}
use cryptofunk.Prelude.Dict.{Dict}
use cryptofunk.Prelude.Floats.{Floats}
use cryptofunk.Orchestrator.HotSwap.{AgentTask, TaskStatus, HotSwapCoordinator, SwapError}

pub data DelegationPolicy : Type 0 where
  delegation_round_robin delegation_weighted delegation_best_fit : DelegationPolicy
  delegation_all delegation_auction : DelegationPolicy

pub data AggregationPolicy : Type 0 where
  aggregation_voting aggregation_weighted aggregation_consensus : AggregationPolicy
  aggregation_best_score aggregation_ensemble : AggregationPolicy

-- The values of conditions and situations, by the types that `toFloat64` tells apart.
pub data FieldValue (F V : Type 0) : Type 0 where
  float_value float32_value : F → FieldValue F V
  int_value : ℤ → FieldValue F V
  text_value : String → FieldValue F V
  carried_value : V → FieldValue F V

pub record ActivationCondition (F V : Type 0) : Type 0 where
  pub field_name : String
  pub operator : String
  pub value : FieldValue F V

pub record SubAgentPerformance (F : Type 0) : Type 0 where
  pub tasks_assigned : ℕ
  pub tasks_completed : ℕ
  pub tasks_failed : ℕ
  pub average_latency : ℕ
  pub average_accuracy : F
  pub last_task_at : Option ℕ

pub record SubAgentInfo (F V : Type 0) : Type 0 where
  pub agent_name : String
  pub agent_type : String
  pub active : Bool
  pub weight : F
  pub capabilities : List String
  pub conditions : List (ActivationCondition F V)
  pub performance : SubAgentPerformance F
  pub added_at : ℕ
  pub last_active : Option ℕ
  pub metadata : Dict V

-- The limits on memory and processor time are never set or read.
pub record ResourceLimits : Type 0 where
  pub max_active_sub_agents : ℕ
  pub max_concurrent_tasks : ℕ
  pub task_timeout : ℕ

pub record Situation (F V : Type 0) : Type 0 where
  pub market_conditions : Dict (FieldValue F V)
  pub portfolio_state : Dict (FieldValue F V)
  pub volatility : F
  pub trend_strength : F
  pub liquidity_level : String
  pub sentiment_score : F
  pub time_of_day : ℕ
  pub assessed_at : ℕ

pub record SubAgentResult (F V : Type 0) : Type 0 where
  pub agent_name : String
  pub result : V
  pub confidence : F
  pub latency : ℕ
  pub error_message : String
  pub metadata : V

-- The final decision: a printed result, or a result.
pub data FinalDecision (V : Type 0) : Type 0 where
  printed : String → FinalDecision V
  as_is : V → FinalDecision V

pub data Rationale : Type 0 where
  no_rationale weighted_aggregation ensemble_of_all : Rationale
  no_results full_consensus no_consensus : Rationale
  majority_vote : ℕ → ℕ → Rationale
  best_result_from : String → Rationale

pub record MetaDecision (F V : Type 0) : Type 0 where
  pub id : String
  pub sub_agent_results : List (SubAgentResult F V)
  pub aggregated_result : Option (List (SubAgentResult F V))
  pub final_decision : Option (FinalDecision V)
  pub confidence : F
  pub rationale : Rationale
  pub decided_at : ℕ

-- The average latency and the activations of sub-agents are never written.
pub record MetaAgentPerformance (F : Type 0) : Type 0 where
  pub total_decisions : ℕ
  pub successful_decisions : ℕ
  pub failed_decisions : ℕ
  pub average_confidence : F
  pub last_updated : ℕ

pub record MetaAgent (F V : Type 0) : Type 0 where
  pub registration : ℕ
  pub sub_agents : List (SubAgentInfo F V)
  pub delegation_policy : DelegationPolicy
  pub aggregation_policy : AggregationPolicy
  pub resource_limits : ResourceLimits
  pub current_situation : Option (Situation F V)
  pub decisions : List (MetaDecision F V)
  pub performance : MetaAgentPerformance F
  pub config : Dict V

pub record HierarchyNode : Type 0 where
  pub agent_name : String
  pub level : ℕ
  pub parent_name : String
  pub children : List String
  pub is_meta_agent : Bool
  pub created_at : ℕ
  pub updated_at : ℕ

-- A new allocation has no result and no time of completion.
pub record TaskAllocation (V : Type 0) : Type 0 where
  pub task_id : String
  pub meta_agent : String
  pub sub_agent : String
  pub task : AgentTask V
  pub allocated_at : ℕ
  pub status : TaskStatus

pub record HierarchyManager (F V : Type 0) : Type 0 where
  pub hot_swap : HotSwapCoordinator V
  pub meta_agents : Dict (MetaAgent F V)
  pub hierarchy : Dict HierarchyNode

pub data HierarchyError : Type 0 where
  meta_agent_exists : String → HierarchyError
  meta_agent_not_registered : SwapError → HierarchyError
  meta_agent_not_found : String → HierarchyError
  sub_agent_not_registered : String → HierarchyError
  sub_agent_already_added : String → String → HierarchyError
  sub_agent_not_found : String → String → HierarchyError

-- The readings of the clock that one call makes.
pub data Reading : Type 0 where
  state_updated state_created registered heartbeat performance_updated : Reading
  node_created node_updated member_added parent_updated : Reading
  assessed allocated decided : Reading

-- What the code takes from outside: the floats, the clock and its hour, `fmt.Sprintf("%v")`,
-- `sort.Slice` by falling weight, and fresh identifiers.
pub record Facilities (F V : Type 0) : Type 0 where
  pub floats : Floats F
  pub clock : Reading → ℕ
  pub hour : ℕ
  pub print_value : FieldValue F V → String
  pub print_result : V → String
  pub sort_by_weight : List (SubAgentInfo F V) → List (SubAgentInfo F V)
  pub new_id : ℕ → String

unfoldable pub new_hierarchy_manager : {F V : Type 0} → HotSwapCoordinator V → HierarchyManager F V
new_hierarchy_manager hot_swap = record { hot_swap = hot_swap; meta_agents = []; hierarchy = [] }

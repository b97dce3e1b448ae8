-- ===== src/Orchestrator/Hierarchy/Situations.antt =====
-- internal/orchestrator/hierarchy.go: the situation of a meta-agent, the conditions on which
-- sub-agents act, and their selection.
use cryptofunk.Prelude.{
  suc, ℤ, pos, negsuc, ltb, String, str_eq, Bool, true, false, not, Option, none, some, List, [],
  ◌∷◌, if◌then◌else◌, length, keep, take, Result, ok, err,
}
use cryptofunk.Prelude.Dict.{Dict, lookup, insert}
use cryptofunk.Prelude.Floats.{Floats}
use cryptofunk.Orchestrator.Hierarchy.{
  FieldValue, float_value, float32_value, int_value, text_value, carried_value, ActivationCondition,
  Situation, SubAgentInfo, HierarchyManager, HierarchyError, meta_agent_not_found, Facilities,
  assessed,
}

abbrev pub float_of_int : {F : Type 0} → Floats F → ℤ → F
float_of_int f (pos n) = f.of_nat n
float_of_int f (negsuc n) = f.sub (f.of_nat 0) (f.of_nat (suc n))

-- The latest message of a topic of the blackboard: none, or what its decoding left in a map, and
-- whether it ended without an error.
abbrev pub Posted : Type 0 → Type 0 → Type 0
Posted F V = Option (Dict (FieldValue F V) × Bool)

module _ {F V : Type 0} where
  unfoldable pub to_float64 : Floats F → FieldValue F V → F
  to_float64 f (float_value v) = v
  to_float64 f (float32_value v) = v
  to_float64 f (int_value v) = float_of_int f v
  to_float64 f (text_value v) = f.of_nat 0
  to_float64 f (carried_value v) = f.of_nat 0

  -- The operators, by what they ask of the two values; any other text holds of none.
  unfoldable pub compare_values : Facilities F V → FieldValue F V → String → FieldValue F V → Bool
  unfolding to_float64
  compare_values w actual operator expected =
      let a = to_float64 w.floats actual in
      let b = to_float64 w.floats expected in
      let above = w.floats.lt b a in
      let below = w.floats.lt a b in
      if str_eq operator "=="
      then str_eq (w.print_value actual) (w.print_value expected)
      else if str_eq operator "!="
      then not (str_eq (w.print_value actual) (w.print_value expected))
      else if str_eq operator ">"
      then above
      else if str_eq operator ">="
      then if above then true else not below
      else if str_eq operator "<"
      then if above then false else below
      else if str_eq operator "<="
      then not above
      else false

  -- The value of a field: one that the situation has, or one of its maps.
  unfoldable pub field_of : Situation F V → String → Option (FieldValue F V)
  unfolding lookup
  field_of s name =
      if str_eq name "volatility"
      then some (float_value s.volatility)
      else if str_eq name "trend_strength"
      then some (float_value s.trend_strength)
      else if str_eq name "liquidity_level"
      then some (text_value s.liquidity_level)
      else if str_eq name "sentiment_score"
      then some (float_value s.sentiment_score)
      else if str_eq name "time_of_day"
      then some (int_value (pos s.time_of_day))
      else elim (lookup name s.market_conditions) [
        | some v ↦ some v
        | none ↦ lookup name s.portfolio_state
      ]

  unfoldable pub evaluate_condition :
      Facilities F V → Situation F V → ActivationCondition F V → Bool
  unfolding field_of compare_values
  evaluate_condition w s cond = elim (field_of s cond.field_name) [
    | none ↦ false
    | some actual ↦ compare_values w actual cond.operator cond.value
  ]

  unfoldable pub evaluate_conditions :
      Facilities F V → Situation F V → List (ActivationCondition F V) → Bool
  unfolding evaluate_condition
  evaluate_conditions w s [] = true
  evaluate_conditions w s (cond ∷ conds) =
      let rest = evaluate_conditions w s conds in
      if evaluate_condition w s cond then rest else false

  unfoldable pub select_sub_agents :
      Facilities F V
      → String
      → Situation F V
      → HierarchyManager F V
      → Result HierarchyError (List (SubAgentInfo F V))
  unfolding evaluate_conditions lookup
  select_sub_agents w name s hm = elim (lookup name hm.meta_agents) [
    | none ↦ err (meta_agent_not_found name)
    | some meta ↦
        let selected = keep (λ agent. evaluate_conditions w s agent.conditions) meta.sub_agents in
        let max = meta.resource_limits.max_active_sub_agents in
        if ltb max (length selected) then ok (take max (w.sort_by_weight selected)) else ok selected
  ]

  abbrev pub float_field : Floats F → String → Dict (FieldValue F V) → F
  float_field f name m = elim (lookup name m) [ some (float_value v) ↦ v | _ ↦ f.of_nat 0 ]

  abbrev pub text_field : String → Dict (FieldValue F V) → String
  text_field name m = elim (lookup name m) [ some (text_value v) ↦ v | _ ↦ "" ]

  abbrev pub posted_map : Posted F V → Dict (FieldValue F V)
  posted_map none = []
  posted_map (some (m, done)) = m

  abbrev pub posted_fields : Posted F V → Dict (FieldValue F V)
  posted_fields none = []
  posted_fields (some (m, done)) = if done then m else []

  -- The metrics are read only from a message that was decoded.
  unfoldable pub situation_of : Facilities F V → Posted F V → Posted F V → Situation F V
  situation_of w market portfolio =
      let fields = posted_fields market in
      record {
        market_conditions = posted_map market;
        portfolio_state = posted_map portfolio;
        volatility = float_field w.floats "volatility" fields;
        trend_strength = float_field w.floats "trend_strength" fields;
        liquidity_level = text_field "liquidity" fields;
        sentiment_score = float_field w.floats "sentiment" fields;
        time_of_day = w.hour;
        assessed_at = w.clock assessed;
      }

  unfoldable pub assess_situation :
      Facilities F V
      → String
      → Posted F V
      → Posted F V
      → HierarchyManager F V
      → HierarchyManager F V × Result HierarchyError (Situation F V)
  unfolding situation_of lookup insert
  assess_situation w name market portfolio hm = elim (lookup name hm.meta_agents) [
    | none ↦ (hm, err (meta_agent_not_found name))
    | some meta ↦
        let s = situation_of w market portfolio in
        (
          record hm {
            meta_agents = insert name (record meta { current_situation = some s }) hm.meta_agents;
          },
          ok s,
        )
  ]

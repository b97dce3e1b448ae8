-- ===== src/Orchestrator/Core/Voting.antt =====
-- internal/orchestrator/orchestrator.go: the weighted vote of the agents, and the cycle that makes
-- the decisions. A Go map is read in no fixed order; here it is the order of the association list.
use cryptofunk.Prelude.{
  ℕ, suc, ◌+◌, leb, String, Bool, ◌||◌, Option, none, some, List, [], ◌∷◌, ◌++◌, if◌then◌else◌,
}
use cryptofunk.Prelude.Dict.{Dict, lookup, insert}
use cryptofunk.Prelude.Floats.{Floats}
use cryptofunk.Orchestrator.Core.{
  AgentSignal, AgentSession, OrchestratorConfig, Reason, voted, insufficient, TradingDecision,
  decided, Cycle, idle, deciding, publishing, Orchestrator, clean_old_signals,
}

module _ {F V : Type 0} where
  abbrev pub signals_in : Option (List (AgentSignal F V)) → List (AgentSignal F V)
  signals_in none = []
  signals_in (some signals) = signals

  -- The signals within the decision window, by symbol.
  unfoldable pub group_signals :
      ℕ → ℕ → Dict (List (AgentSignal F V)) → List (AgentSignal F V) → Dict (List (AgentSignal F V))
  unfolding lookup insert
  group_signals now window groups [] = groups
  group_signals now window groups (s ∷ rest) =
      group_signals now window
        (if leb now (s.timestamp + window)
          then insert s.symbol (signals_in (lookup s.symbol groups) ++ s ∷ []) groups
          else groups)
        rest

  unfoldable pub get_recent_signals_by_symbol : ℕ → Orchestrator F V → Dict (List (AgentSignal F V))
  unfolding group_signals
  get_recent_signals_by_symbol now o = group_signals now o.config.step_interval [] o.signal_buffer

-- The scores so far, the total of the weights, the number of votes and the reasons.
pub record Tally (F : Type 0) : Type 0 where
  pub voting_scores : Dict F
  pub total_weight : F
  pub votes : ℕ
  pub reasons : List (Reason F)

abbrev pub score_in : {F : Type 0} → Floats F → Option F → F
score_in f none = f.of_nat 0
score_in f (some score) = score

module _ {F : Type 0} where
  abbrev pub first_tally : Floats F → Tally F
  first_tally f = record {
    voting_scores = ("BUY", f.of_nat 0) ∷ ("SELL", f.of_nat 0) ∷ ("HOLD", f.of_nat 0) ∷ [];
    total_weight = f.of_nat 0;
    votes = 0;
    reasons = [];
  }

  -- The vote of a signal counts if its agent is known and enabled.
  abbrev pub voting_weight : Option (AgentSession F) → Option F
  voting_weight none = none
  voting_weight (some session) = if session.enabled then some session.weight else none

module _ {F V : Type 0} where
  abbrev pub add_vote : Floats F → F → AgentSignal F V → Tally F → Tally F
  add_vote f weight s t = record {
    voting_scores =
        insert s.signal
          (f.add (score_in f (lookup s.signal t.voting_scores)) (f.mul weight s.confidence))
          t.voting_scores;
    total_weight = f.add t.total_weight weight;
    votes = suc t.votes;
    reasons = t.reasons ++ voted s.agent_name s.signal s.confidence ∷ [];
  }

  abbrev pub count_vote : Floats F → Option F → AgentSignal F V → Tally F → Tally F
  count_vote f none s t = t
  count_vote f (some weight) s t = add_vote f weight s t

  unfoldable pub count_votes :
      Floats F → Dict (AgentSession F) → List (AgentSignal F V) → Tally F → Tally F
  unfolding lookup insert
  count_votes f agents [] t = t
  count_votes f agents (s ∷ rest) t =
      count_votes f agents rest (count_vote f (voting_weight (lookup s.agent_name agents)) s t)

module _ {F : Type 0} where
  -- The action of the highest score above that of `best`.
  unfoldable pub winner_from : Floats F → String × F → Dict F → String × F
  winner_from f best [] = best
  winner_from f best ((action, score) ∷ rest) =
      winner_from f (if f.lt best.1 score then (action, score) else best) rest

  abbrev pub verdict : Floats F → OrchestratorConfig F → String → ℕ → Tally F → TradingDecision F
  verdict f config symbol timestamp t =
      let (winner, most) = winner_from f ("HOLD", f.of_nat 0) t.voting_scores in
      let consensus =
        if f.lt (f.of_nat 0) t.total_weight then f.div most t.total_weight else f.of_nat 0 in
      let confidence = f.div most t.total_weight in
      let short = f.lt consensus config.min_consensus || f.lt confidence config.min_confidence in
      record {
        symbol = symbol;
        action = if short then "HOLD" else winner;
        confidence = confidence;
        consensus = consensus;
        participating_agents = t.votes;
        voting_results = t.voting_scores;
        reasoning =
            if short
            then t.reasons
              ++ insufficient consensus config.min_consensus confidence config.min_confidence ∷ []
            else t.reasons;
        timestamp = timestamp;
      }

module _ {F V : Type 0} where
  unfoldable pub calculate_decision :
      Floats F
      → Dict (AgentSession F)
      → OrchestratorConfig F
      → String
      → List (AgentSignal F V)
      → ℕ
      → TradingDecision F
  unfolding count_votes winner_from
  calculate_decision f agents config symbol signals timestamp =
      verdict f config symbol timestamp (count_votes f agents signals (first_tally f))

  -- The start of `makeDecision` at a tick of `Run`, whose loop makes one cycle at a time.
  unfoldable pub begin_cycle : ℕ → Orchestrator F V → Orchestrator F V
  unfolding get_recent_signals_by_symbol
  begin_cycle now o = if o.paused then o else elim o.cycle [
    | idle ↦ record o { cycle = deciding (get_recent_signals_by_symbol now o) }
    | deciding groups ↦ o
    | publishing decision groups ↦ o
  ]

  -- What follows the loop.
  abbrev pub end_cycle : ℕ → Orchestrator F V → Orchestrator F V
  end_cycle now o = clean_old_signals now (record o { cycle = idle })

  -- `publishDecision`, where `encodes` is whether `json.Marshal` takes the decision.
  unfoldable pub publish_decision : Bool → TradingDecision F → Orchestrator F V → Orchestrator F V
  publish_decision encodes decision o =
      if encodes then record o { broadcasts = o.broadcasts ++ decided decision ∷ [] } else o

  unfoldable pub continue_from :
      Floats F → Bool → ℕ → Cycle F V → Orchestrator F V → Orchestrator F V
  unfolding calculate_decision clean_old_signals publish_decision
  continue_from f encodes now idle o = o
  continue_from f encodes now (deciding []) o = end_cycle now o
  continue_from f encodes now (deciding ((symbol, signals) ∷ rest)) o =
      if o.paused then end_cycle now o else record o {
        cycle = publishing (calculate_decision f o.agents o.config symbol signals now) rest;
      }
  continue_from f encodes now (publishing decision rest) o =
      record (publish_decision encodes decision o) { cycle = deciding rest }

  -- The rest of `makeDecision`, one step at a time: the decision for a symbol up to the second
  -- reading of the flag, its publication after that, or the end. Other calls may come between.
  unfoldable pub continue_cycle : Floats F → Bool → ℕ → Orchestrator F V → Orchestrator F V
  unfolding continue_from
  continue_cycle f encodes now o = continue_from f encodes now o.cycle o

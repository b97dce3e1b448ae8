-- ===== src/Orchestrator/Core/Verdict.antt =====
-- internal/orchestrator/orchestrator.go: which action the weighted vote takes.
use cryptofunk.Prelude.{
  Option-cases, str_eq, ℕ, String, true, false, ◌≡◌, refl, ap, subst, sym, ◌∙◌, ◌⊎◌, inl, inr,
  Bool-cases, List, [], ◌∷◌, if◌then◌else◌, length, keep, All, arith, ◌||◌,
}
use cryptofunk.Prelude.Dict.{Dict, lookup}
use cryptofunk.Prelude.Floats.{Floats}
use cryptofunk.Orchestrator.Consensus.Award.{In}
use cryptofunk.Orchestrator.Core.{AgentSignal, AgentSession, OrchestratorConfig, TradingDecision}
use cryptofunk.Orchestrator.Core.Voting.{
  score_in, first_tally, count_votes, winner_from, calculate_decision,
}
use cryptofunk.Orchestrator.Core.Scores.{Distinct, In-lookup, All-lookup}
use cryptofunk.Orchestrator.Core.Votes.{
  counted, weight_sum, weighted, score_for, tally_sum, count_votes-Counts, count_votes-Distinct,
}

-- The comparison of float64, NaN included.
pub record IsStrict {F : Type 0} (f : Floats F) : Type 0 where
  pub irrefl : (x : F) → f.lt x x ≡ false
  pub trans : (x y z : F) → f.lt x y ≡ true → f.lt y z ≡ true → f.lt x z ≡ true

module _ {F : Type 0} (f : Floats F) (order : IsStrict f) where
  not_below : (x y z : F) → f.lt x y ≡ true → f.lt z y ≡ false → f.lt z x ≡ false
  not_below x y z e free = elim (Bool-cases (f.lt z x)) [
    | inl t ↦ cc (order.trans z x y t e, free)
    | inr t ↦ t
  ]

  not_above : (x y z : F) → f.lt x z ≡ true → f.lt x y ≡ false → f.lt z y ≡ false
  not_above x y z e free = elim (Bool-cases (f.lt z y)) [
    | inl t ↦ cc (order.trans x z y e t, free)
    | inr t ↦ t
  ]

  -- The entry where a search ends.
  record IsBestEntry (start found : String × F) (scores : Dict F) : Type 0 where
    pub unbeaten : All (λ entry. f.lt found.1 entry.1 ≡ false) scores
    pub holds : f.lt found.1 start.1 ≡ false
    pub which : (found ≡ start) ⊎ (In found scores × (f.lt start.1 found.1 ≡ true))

  winner_from-IsBestEntry :
      (start : String × F) (scores : Dict F) → IsBestEntry start (winner_from f start scores) scores
  unfolding winner_from
  winner_from-IsBestEntry start [] = record {
    unbeaten = tt;
    holds = order.irrefl start.1;
    which = inl refl;
  }
  winner_from-IsBestEntry start ((action, score) ∷ rest) = elim (Bool-cases (f.lt start.1 score)) [
    | inl e ↦
        let next = winner_from-IsBestEntry (action, score) rest in
        let found = winner_from f (action, score) rest in
        let last : (found ≡ start)
            ⊎ (In found ((action, score) ∷ rest) × (f.lt start.1 found.1 ≡ true)) =
          elim next.which [
            | inl same ↦ inr (inl same, subst (λ r. f.lt start.1 r.1 ≡ true) (sym same) e)
            | inr (i, above) ↦ inr (inr i, order.trans start.1 score found.1 e above)
          ] in
        rw e (record {
          unbeaten = (next.holds, next.unbeaten);
          holds = not_below start.1 score found.1 e next.holds;
          which = last;
        })
    | inr e ↦
        let next = winner_from-IsBestEntry start rest in
        let found = winner_from f start rest in
        let free : f.lt found.1 score ≡ false = elim next.which [
          | inl same ↦ subst (λ r. f.lt r.1 score ≡ false) (sym same) e
          | inr (i, above) ↦ not_above start.1 score found.1 above e
        ] in
        let last : (found ≡ start)
            ⊎ (In found ((action, score) ∷ rest) × (f.lt start.1 found.1 ≡ true)) =
          elim next.which [ inl same ↦ inl same | inr (i, above) ↦ inr (inr i, above) ] in
        rw e (record { unbeaten = (free, next.unbeaten); holds = next.holds; which = last })
  ]

module _ {F : Type 0} (f : Floats F) where
  first-score :
      (action : String) → score_in f (lookup action (first_tally f).voting_scores) ≡ f.of_nat 0
  unfolding lookup
  first-score action = ground arith

  not_below_none :
      (other : String) (best : F) (m : Dict F)
      → f.lt best (f.of_nat 0) ≡ false
      → All (λ entry. f.lt best entry.1 ≡ false) m
      → f.lt best (score_in f (lookup other m)) ≡ false
  not_below_none other best m none_above all = elim (Option-cases (lookup other m)) [
    | inl l ↦ rw l none_above
    | inr (x, l) ↦ rw l (All-lookup (λ y. f.lt best y ≡ false) other m all l)
  ]

module _ {F V : Type 0} (f : Floats F) (agents : Dict (AgentSession F)) where
  -- The highest score, and the action that has it: 0 and `HOLD` if no score is above 0.
  pub record IsHighest (signals : List (AgentSignal F V)) (action : String) (score : F)
      : Type 0 where
    pub unbeaten : (other : String) → f.lt score (score_for f agents other signals) ≡ false
    pub which :
        ((score ≡ score_for f agents action signals) × (f.lt (f.of_nat 0) score ≡ true))
        ⊎ ((score ≡ f.of_nat 0) × (action ≡ "HOLD"))

  -- What a decision is for the signals.
  pub record IsVerdict (config : OrchestratorConfig F) (signals : List (AgentSignal F V))
      (d : TradingDecision F) : Type 0 where
    pub participating : d.participating_agents ≡ length (counted f agents signals)
    pub results :
        (action : String)
        → score_in f (lookup action d.voting_results) ≡ score_for f agents action signals
    pub winner : String
    pub score : F
    pub top : IsHighest signals winner score
    pub confidence : d.confidence ≡ f.div score (weight_sum f agents signals)
    pub consensus : d.consensus ≡ (
        if f.lt (f.of_nat 0) (weight_sum f agents signals)
        then f.div score (weight_sum f agents signals)
        else f.of_nat 0)
    pub action : d.action ≡ (
        if f.lt d.consensus config.min_consensus || f.lt d.confidence config.min_confidence
        then "HOLD"
        else winner)

  score-is :
      (signals : List (AgentSignal F V)) (action : String)
      → score_in f (lookup action (count_votes f agents signals (first_tally f)).voting_scores)
        ≡ score_for f agents action signals
  score-is signals action =
      (count_votes-Counts f agents signals (first_tally f)).scores action
      ∙ ap
          (λ x.
            tally_sum f agents (weighted f agents) x
              (keep (λ s. str_eq s.signal action) (counted f agents signals)))
          (first-score f action)

  abbrev scores_of : List (AgentSignal F V) → Dict F
  scores_of signals = (count_votes f agents signals (first_tally f)).voting_scores

  scores_of-Distinct : (signals : List (AgentSignal F V)) → Distinct (scores_of signals)
  unfolding lookup
  scores_of-Distinct signals =
      count_votes-Distinct f agents signals (first_tally f) (refl, (refl, (refl, tt)))

  winner_from-IsHighest :
      (order : IsStrict f) (signals : List (AgentSignal F V))
      → let found = winner_from f ("HOLD", f.of_nat 0) (scores_of signals) in
        IsHighest signals found.0 found.1
  winner_from-IsHighest order signals =
      let scores = scores_of signals in
      let found = winner_from f ("HOLD", f.of_nat 0) scores in
      let won = winner_from-IsBestEntry f order ("HOLD", f.of_nat 0) scores in
      record {
        unbeaten = λ other.
            subst (λ x. f.lt found.1 x ≡ false) (score-is signals other)
              (not_below_none f other found.1 scores won.holds won.unbeaten);
        which = elim won.which [
          | inl same ↦ inr (ap (λ x. x.1) same, ap (λ x. x.0) same)
          | inr (i, above) ↦
              let there = In-lookup found.0 found.1 scores (scores_of-Distinct signals) i in
              inl (sym (ap (score_in f) there) ∙ score-is signals found.0, above)
        ];
      }

  -- For a strict order of floats, which the order of float64 is with NaN: a decision counts exactly
  -- the signals of agents that are known and enabled. The result of every action is the sum, over
  -- the counted signals for it, of the agent's weight times the confidence. The winner is an action
  -- of a score above 0 that no other action's exceeds, or `HOLD` with the score 0 when no score is
  -- above 0; the confidence is its score over the sum of the weights, the consensus the same, or 0
  -- when that sum is not above 0; and the action is the winner, or `HOLD` when the consensus or the
  -- confidence is below its threshold.
  pub calculate_decision-IsVerdict :
      (order : IsStrict f) (config : OrchestratorConfig F) (symbol : String)
      (signals : List (AgentSignal F V)) (timestamp : ℕ)
      → IsVerdict config signals (calculate_decision f agents config symbol signals timestamp)
  unfolding calculate_decision
  calculate_decision-IsVerdict order config symbol signals timestamp =
      let t = count_votes f agents signals (first_tally f) in
      let counts = count_votes-Counts f agents signals (first_tally f) in
      let votes = counts.votes in
      let found = winner_from f ("HOLD", f.of_nat 0) t.voting_scores in
      record {
        participating = omega (arith, votes);
        results = λ action. score-is signals action;
        winner = found.0;
        score = found.1;
        top = winner_from-IsHighest order signals;
        confidence = ap (λ w. f.div found.1 w) counts.total;
        consensus =
            ap (λ w. if f.lt (f.of_nat 0) w then f.div found.1 w else f.of_nat 0) counts.total;
        action = refl;
      }

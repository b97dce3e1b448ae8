-- ===== src/Orchestrator/Core/Votes.antt =====
-- internal/orchestrator/orchestrator.go: what the loop over the signals adds up.
use cryptofunk.Prelude.{
  str_eq, ◌+◌, String, Bool, true, false, ◌≡◌, refl, ap, sym, ◌∙◌, ◌⊎◌, inl, inr, Bool-cases,
  Option, none, some, List, [], ◌∷◌, if◌then◌else◌, length, keep, arith,
}
use text.Mathlib.TextEquality.{eq_iff}
use cryptofunk.Prelude.Dict.{Dict, lookup, lookup-insert}
use cryptofunk.Prelude.Floats.{Floats}
use cryptofunk.Orchestrator.Core.{AgentSignal, AgentSession}
use cryptofunk.Orchestrator.Core.Voting.{
  score_in, add_vote, Tally, voting_weight, count_vote, count_votes,
}
use cryptofunk.Orchestrator.Core.Scores.{Distinct, Distinct-insert}

module _ {F : Type 0} where
  abbrev pub is_enabled : Option (AgentSession F) → Bool
  is_enabled none = false
  is_enabled (some session) = session.enabled

  abbrev pub weight_of_session : Floats F → Option (AgentSession F) → F
  weight_of_session f none = f.of_nat 0
  weight_of_session f (some session) = session.weight

module _ {F V : Type 0} (f : Floats F) (agents : Dict (AgentSession F)) where
  abbrev pub tally_sum : (AgentSignal F V → F) → F → List (AgentSignal F V) → F
  tally_sum value sum [] = sum
  tally_sum value sum (s ∷ rest) = tally_sum value (f.add sum (value s)) rest

  abbrev pub weight_by : AgentSignal F V → F
  weight_by s = weight_of_session f (lookup s.agent_name agents)

  -- The signals of agents that are known and enabled.
  abbrev pub counted : List (AgentSignal F V) → List (AgentSignal F V)
  counted signals = keep (λ s. is_enabled (lookup s.agent_name agents)) signals

  -- The sum of the weights of those agents, for each of their signals.
  abbrev pub weight_sum : List (AgentSignal F V) → F
  weight_sum signals = tally_sum weight_by (f.of_nat 0) (counted signals)

  abbrev pub weighted : AgentSignal F V → F
  weighted s = f.mul (weight_by s) s.confidence

  -- The sum of weight times confidence over the counted signals for an action.
  abbrev pub score_for : String → List (AgentSignal F V) → F
  score_for action signals =
      tally_sum weighted (f.of_nat 0) (keep (λ s. str_eq s.signal action) (counted signals))

  -- What a tally holds after counted signals.
  pub record Counts (t : Tally F) (signals : List (AgentSignal F V)) (u : Tally F) : Type 0 where
    pub votes : u.votes ≡ t.votes + length (counted signals)
    pub total : u.total_weight ≡ tally_sum weight_by t.total_weight (counted signals)
    pub scores :
        (action : String)
        → score_in f (lookup action u.voting_scores)
          ≡ tally_sum weighted
              (score_in f (lookup action t.voting_scores))
              (keep (λ s. str_eq s.signal action) (counted signals))

  count_vote-known :
      (s : AgentSignal F V) (t : Tally F) (session : AgentSession F) (action : String)
      → score_in f (lookup action (add_vote f session.weight s t).voting_scores) ≡ (
          if str_eq s.signal action
          then f.add
              (score_in f (lookup action t.voting_scores))
              (f.mul session.weight s.confidence)
          else score_in f (lookup action t.voting_scores))
  count_vote-known s t session action = elim (Bool-cases (str_eq s.signal action)) [
    | inl e ↦
        let same : s.signal ≡ action = (eq_iff s.signal action).0 e in
        rw (lookup-insert s.signal action _ t.voting_scores, e)
          (ap
            (λ name.
              f.add (score_in f (lookup name t.voting_scores)) (f.mul session.weight s.confidence))
            same)
    | inr e ↦ rw (lookup-insert s.signal action _ t.voting_scores, e) refl
  ]

  skip-Counts :
      (s : AgentSignal F V) (rest : List (AgentSignal F V)) (t u : Tally F)
      → is_enabled (lookup s.agent_name agents) ≡ false
      → Counts t rest u
      → Counts t (s ∷ rest) u
  skip-Counts s rest t u off h = record {
    votes = rw off h.votes;
    total = rw off h.total;
    scores = λ action. rw off (h.scores action);
  }

  vote-Counts :
      (s : AgentSignal F V) (rest : List (AgentSignal F V)) (t u : Tally F)
      (session : AgentSession F)
      → lookup s.agent_name agents ≡ some session
      → session.enabled ≡ true
      → Counts (add_vote f session.weight s t) rest u
      → Counts t (s ∷ rest) u
  vote-Counts s rest t u session l on h = record {
    votes = rw (l, on) (let v = h.votes in omega (arith, v));
    total =
        rw (l, on)
          (h.total ∙ ap (λ w. tally_sum weight_by (f.add t.total_weight w) (counted rest)) weighs);
    scores = λ action. rw (l, on) (result_for action (Bool-cases (str_eq s.signal action)));
  }
    where
      weighs : session.weight ≡ weight_by s
      weighs = sym (ap (weight_of_session f) l)

      result_for :
          (action : String)
          → (str_eq s.signal action ≡ true) ⊎ (str_eq s.signal action ≡ false)
          → score_in f (lookup action u.voting_scores)
            ≡ tally_sum weighted
                (score_in f (lookup action t.voting_scores))
                (keep (λ s. str_eq s.signal action) (s ∷ counted rest))
      result_for action (inl e) =
          let others = keep (λ s. str_eq s.signal action) (counted rest) in
          let old = score_in f (lookup action t.voting_scores) in
          let new = rw e at (count_vote-known s t session action) in
          rw e (
            h.scores action
            ∙ ap (λ x. tally_sum weighted x others)
                (new ∙ ap (λ w. f.add old (f.mul w s.confidence)) weighs))
      result_for action (inr e) =
          let others = keep (λ s. str_eq s.signal action) (counted rest) in
          let same = rw e at (count_vote-known s t session action) in
          rw e (h.scores action ∙ ap (λ x. tally_sum weighted x others) same)

  next-Counts :
      (s : AgentSignal F V) (rest : List (AgentSignal F V)) (t : Tally F)
      (o : Option (AgentSession F))
      → lookup s.agent_name agents ≡ o
      → ((u : Tally F) → Counts u rest (count_votes f agents rest u))
      → Counts t (s ∷ rest) (count_votes f agents rest (count_vote f (voting_weight o) s t))
  next-Counts s rest t none l ih = skip-Counts s rest t _ (ap is_enabled l) (ih t)
  next-Counts s rest t (some session) l ih = elim (Bool-cases session.enabled) [
    | inl on ↦ rw on (vote-Counts s rest t _ session l on (ih (add_vote f session.weight s t)))
    | inr off ↦ rw off (skip-Counts s rest t _ (ap is_enabled l ∙ off) (ih t))
  ]

  pub count_votes-Counts :
      (signals : List (AgentSignal F V)) (t : Tally F)
      → Counts t signals (count_votes f agents signals t)
  unfolding count_votes
  count_votes-Counts [] t = record { votes = omega arith; total = refl; scores = λ action. refl }
  count_votes-Counts (s ∷ rest) t =
      next-Counts s rest t (lookup s.agent_name agents) refl (λ u. count_votes-Counts rest u)

  pub count_votes-Distinct :
      (signals : List (AgentSignal F V)) (t : Tally F)
      → Distinct t.voting_scores
      → Distinct (count_votes f agents signals t).voting_scores
  unfolding count_votes
  count_votes-Distinct [] t h = h
  count_votes-Distinct (s ∷ rest) t h =
      count_votes-Distinct rest _ (voted (voting_weight (lookup s.agent_name agents)))
    where
      voted : (w : Option F) → Distinct (count_vote f w s t).voting_scores
      voted none = h
      voted (some weight) = Distinct-insert s.signal _ t.voting_scores h

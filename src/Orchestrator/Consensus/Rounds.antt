-- ===== src/Orchestrator/Consensus/Rounds.antt =====
-- internal/orchestrator/consensus.go: the rounds of the Delphi method. A session is changed in place by the code;
-- here each function returns the changed session with what goes out. A timer that fires is an
-- event of its own.
use cryptofunk.Prelude.{
  ℕ, suc, ◌-◌, ◌==◌, leb, ltb, String, Bool, true, false, ◌||◌, Option, none, some, List, [], ◌∷◌,
  ◌++◌, if◌then◌else◌, str_eq, length, get_elem?, set, Result, ok, err,
}
use cryptofunk.Prelude.Dict.{insert}
use cryptofunk.Prelude.Floats.{Floats}
use cryptofunk.Orchestrator.Consensus.{
  Response, RoundStatistics, ConsensusRound, ConsensusResult, ConsensusConfig, ConsensusSession,
  ConsensusEffect, requested, timer_set, result_posted, consensus_active, consensus_converged,
  consensus_failed, ConsensusError, session_not_active, no_active_round, agent_not_participant,
  is_active_status,
}
use cryptofunk.Orchestrator.Consensus.Statistics.{
  calculate_statistics, calculate_overall_confidence,
}

-- The readings of the clock that one call makes.
pub data Moment : Type 0 where
  counted created first_updated expires round_started round_updated : Moment
  responded round_completed completion_updated finalized result_updated : Moment

-- What the code takes from outside: the floats, the clock, and the text of the feedback, which
-- `fmt.Sprintf` makes of the mean, the median, the deviation and the consensus in per cent.
pub record Outside (F : Type 0) : Type 0 where
  pub floats : Floats F
  pub clock : Moment → ℕ
  pub feedback_text : F → F → F → F → String

abbrev pub is_participant : String → List String → Bool
is_participant name [] = false
is_participant name (p ∷ ps) =
    let rest = is_participant name ps in if str_eq p name then true else rest

module _ {F : Type 0} where
  abbrev pub feedback_after : Outside F → Option (RoundStatistics F) → String
  feedback_after o none = ""
  feedback_after o (some s) =
      o.feedback_text s.mean s.median s.std_dev (o.floats.mul s.consensus (o.floats.of_nat 100))

  abbrev pub previous_feedback : Outside F → Option (ConsensusRound F) → String
  previous_feedback o none = ""
  previous_feedback o (some r) = feedback_after o r.statistics

  abbrev pub round_requests :
      ConsensusSession F → ℕ → String → List String → List (ConsensusEffect F)
  round_requests s number feedback [] = []
  round_requests s number feedback (name ∷ names) =
      requested name s.id number s.question feedback s.topic
      ∷ round_requests s number feedback names

  abbrev pub new_round : Outside F → ConsensusSession F → ConsensusRound F
  new_round o s = record {
    number = suc (length s.rounds);
    responses = [];
    statistics = none;
    feedback =
        if ltb 0 (length s.rounds)
        then previous_feedback o (get_elem? s.rounds (length s.rounds - 1))
        else "";
    started_at = o.clock round_started;
    completed_at = none;
  }

  -- `startDelphiRound`, which never returns an error.
  unfoldable pub start_delphi_round :
      Outside F
      → ConsensusConfig F
      → ConsensusSession F
      → ConsensusSession F × List (ConsensusEffect F)
  start_delphi_round o config s =
      let round = new_round o s in
      (
        record s {
          rounds = s.rounds ++ round ∷ [];
          status = consensus_active;
          updated_at = o.clock round_updated;
        },
        round_requests s round.number round.feedback s.participants
            ++ timer_set s.id round.number config.round_timeout ∷ [],
      )

  abbrev pub result_of :
      Outside F → ConsensusSession F → ConsensusRound F → RoundStatistics F → ConsensusResult F
  result_of o s round statistics = record {
    decision = statistics.mean;
    confidence = calculate_overall_confidence o.floats round;
    agreement = statistics.consensus;
    rounds = length s.rounds;
    duration = o.clock finalized - s.created_at;
    final_statistics = statistics;
  }

  -- `finalizeDelphiConsensus` of a round with the given statistics.
  unfoldable pub finalize_delphi_consensus :
      Outside F
      → ConsensusRound F
      → RoundStatistics F
      → ConsensusSession F
      → ConsensusSession F × List (ConsensusEffect F)
  finalize_delphi_consensus o round statistics s =
      let result = result_of o s round statistics in
      (
        record s {
          status = consensus_converged;
          result = some result;
          updated_at = o.clock result_updated;
        },
        result_posted s.topic s.id result ∷ [],
      )

  abbrev pub completed_round : Outside F → ConsensusRound F → ConsensusRound F
  completed_round o round = record round {
    completed_at = some (o.clock round_completed);
    statistics = some (calculate_statistics o.floats round);
  }

  -- `completeDelphiRound` of the round that lies at `index`.
  unfoldable pub complete_delphi_round :
      Outside F
      → ConsensusConfig F
      → ℕ
      → ConsensusRound F
      → ConsensusSession F
      → ConsensusSession F × List (ConsensusEffect F)
  unfolding start_delphi_round finalize_delphi_consensus
  complete_delphi_round o config index round s =
      let round' = completed_round o round in
      let statistics = calculate_statistics o.floats round in
      let s' = record s {
        rounds = set s.rounds index round';
        updated_at = o.clock completion_updated;
      } in
      if statistics.convergence || leb config.max_rounds round.number
      then finalize_delphi_consensus o round' statistics s'
      else start_delphi_round o config s'

  abbrev pub with_response : Response F → ConsensusRound F → ConsensusRound F
  with_response r round = record round { responses = insert r.agent_name r round.responses }

  -- What `SubmitDelphiResponse` does to the session once it is found.
  unfoldable pub respond :
      Outside F
      → Response F
      → ConsensusSession F
      → (ConsensusSession F × List (ConsensusEffect F)) × Result ConsensusError (Unit {0})
  unfolding complete_delphi_round insert
  respond o r s =
      if is_active_status s.status
      then (let index = length s.rounds - 1 in
          elim (get_elem? s.rounds index) [
            | none ↦ ((s, []), err no_active_round)
            | some round ↦
                if is_participant r.agent_name s.participants
                then (let round' = with_response r round in
                    let s' = record s { rounds = set s.rounds index round' } in
                    if length round'.responses == length s.participants
                    then (complete_delphi_round o s.config index round' s', ok tt)
                    else ((s', []), ok tt))
                else ((s, []), err (agent_not_participant r.agent_name))
          ])
      else ((s, []), err (session_not_active s.status))

  -- What `roundTimeoutHandler` does to the session once the timer has fired. The timers are numbered
  -- from 1; `get_elem?` gives `none` where there are fewer rounds.
  unfoldable pub timed_out :
      Outside F → ℕ → ConsensusSession F → ConsensusSession F × List (ConsensusEffect F)
  unfolding complete_delphi_round
  timed_out o number s =
      if is_active_status s.status
      then elim (get_elem? s.rounds (number - 1)) [
        | none ↦ (s, [])
        | some round ↦ elim round.completed_at [
          | some _ ↦ (s, [])
          | none ↦
              if leb s.config.min_participants (length round.responses)
              then complete_delphi_round o s.config (number - 1) round s
              else (record s { status = consensus_failed }, [])
        ]
      ]
      else (s, [])

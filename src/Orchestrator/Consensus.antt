-- ===== src/Orchestrator/Consensus.antt =====
-- internal/orchestrator/consensus.go: the data of the consensus between agents. `F` stands for
-- float64. Times are in nanoseconds. A session's map of metadata only ever holds its
-- configuration, which is a field here, and a response's map is empty; the values submitted are
-- numbers. The limits of a configuration are taken to be no less than 0.
pub mod Statistics
pub mod Rounds
pub mod Delphi
pub mod Shape
pub mod Sound
pub mod Progress
pub mod Run
pub mod Tracked
pub mod Ends
pub mod Answers
pub mod Roster
pub mod Submits
pub mod Limits
pub mod Capacity
pub mod Cleanup
pub mod Contract
pub mod Award
pub mod Examples
use cryptofunk.Prelude.{ℕ, ◌*◌, String, Bool, true, false, Option, none, some, List, []}
use cryptofunk.Prelude.Dict.{Dict}
use cryptofunk.Prelude.Floats.{Floats}

pub data ConsensusMethod : Type 0 where
  delphi_method contract_net_method voting_method weighted_method : ConsensusMethod

pub data ConsensusStatus : Type 0 where
  consensus_pending consensus_active consensus_converged : ConsensusStatus
  consensus_failed consensus_expired : ConsensusStatus

pub record Response (F : Type 0) : Type 0 where
  pub agent_name : String
  pub value : F
  pub confidence : F
  pub reasoning : String
  pub timestamp : ℕ

pub record RoundStatistics (F : Type 0) : Type 0 where
  pub mean : F
  pub median : F
  pub std_dev : F
  pub min_value : F
  pub max_value : F
  pub range_value : F
  pub consensus : F
  pub convergence : Bool

pub record ConsensusRound (F : Type 0) : Type 0 where
  pub number : ℕ
  pub responses : Dict (Response F)
  pub statistics : Option (RoundStatistics F)
  pub feedback : String
  pub started_at : ℕ
  pub completed_at : Option ℕ

-- The metadata of a result hold the statistics of the final round.
pub record ConsensusResult (F : Type 0) : Type 0 where
  pub decision : F
  pub confidence : F
  pub agreement : F
  pub rounds : ℕ
  pub duration : ℕ
  pub final_statistics : RoundStatistics F

pub record ConsensusConfig (F : Type 0) : Type 0 where
  pub max_rounds : ℕ
  pub convergence_threshold : F
  pub round_timeout : ℕ
  pub session_ttl : ℕ
  pub min_participants : ℕ
  pub max_active_sessions : ℕ
  pub max_participants : ℕ
  pub max_concurrent_timeouts : ℕ

unfoldable pub default_consensus_config : {F : Type 0} → Floats F → ConsensusConfig F
default_consensus_config f = record {
  max_rounds = 5;
  convergence_threshold = f.ratio 8 10;
  round_timeout = 30 * 1000000000;
  session_ttl = 5 * 60 * 1000000000;
  min_participants = 2;
  max_active_sessions = 10;
  max_participants = 50;
  max_concurrent_timeouts = 100;
}

pub record ConsensusSession (F : Type 0) : Type 0 where
  pub id : String
  pub method : ConsensusMethod
  pub topic : String
  pub question : String
  pub participants : List String
  pub rounds : List (ConsensusRound F)
  pub status : ConsensusStatus
  pub result : Option (ConsensusResult F)
  pub config : ConsensusConfig F
  pub created_at : ℕ
  pub updated_at : ℕ
  pub expires_at : ℕ

-- What goes out: the question of a round to an agent, the timer of a round, a result on the
-- blackboard. Whether the bus takes a message only goes to the log.
pub data ConsensusEffect (F : Type 0) : Type 0 where
  requested : String → String → ℕ → String → String → String → ConsensusEffect F
  timer_set : String → ℕ → ℕ → ConsensusEffect F
  result_posted : String → String → ConsensusResult F → ConsensusEffect F

-- The effects are those since the manager was made, the latest last.
pub record ConsensusManager (F : Type 0) : Type 0 where
  pub config : ConsensusConfig F
  pub sessions : Dict (ConsensusSession F)
  pub effects : List (ConsensusEffect F)

abbrev pub or_default_consensus :
    {F : Type 0} → Floats F → Option (ConsensusConfig F) → ConsensusConfig F
or_default_consensus f none = default_consensus_config f
or_default_consensus f (some config) = config

module _ {F : Type 0} where
  unfoldable pub new_consensus_manager_with_config :
      Floats F → Option (ConsensusConfig F) → ConsensusManager F
  unfolding default_consensus_config
  new_consensus_manager_with_config f config = record {
    config = or_default_consensus f config;
    sessions = [];
    effects = [];
  }

  unfoldable pub new_consensus_manager : Floats F → ConsensusManager F
  unfolding new_consensus_manager_with_config default_consensus_config
  new_consensus_manager f = new_consensus_manager_with_config f (some (default_consensus_config f))

pub data ConsensusError : Type 0 where
  max_active_sessions_reached : ℕ → ℕ → ConsensusError
  too_many_participants : ℕ → ℕ → ConsensusError
  insufficient_participants : ℕ → ℕ → ConsensusError
  session_not_found : String → ConsensusError
  session_not_active : ConsensusStatus → ConsensusError
  no_active_round : ConsensusError
  agent_not_participant : String → ConsensusError

abbrev pub is_active_status : ConsensusStatus → Bool
is_active_status consensus_active = true
is_active_status _ = false

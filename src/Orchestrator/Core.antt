-- ===== src/Orchestrator/Core.antt =====
-- internal/orchestrator/orchestrator.go: the sessions of the agents, the buffer of their signals, and
-- the pause of trading. `F` stands for float64, `V` for metadata that are only carried. A reading
-- `t.Sub(u) > d` of times is `u + d < t`; the zero time is 0.
pub mod Voting
pub mod Control
pub mod Run
pub mod Orderly
pub mod Silence
pub mod Scores
pub mod Votes
pub mod Verdict
pub mod Examples
use cryptofunk.Prelude.{
  ℕ, suc, ◌+◌, ◌*◌, ltb, leb, String, str_eq, Bool, true, false, Option, none, some, List, [], ◌∷◌,
  ◌++◌, if◌then◌else◌, length, keep, drop,
}
use cryptofunk.Prelude.Dict.{Dict, lookup, insert}
use cryptofunk.Prelude.Floats.{Floats}

pub record AgentSignal (F V : Type 0) : Type 0 where
  pub agent_name : String
  pub agent_type : String
  pub symbol : String
  pub signal : String
  pub confidence : F
  pub reasoning : String
  pub timestamp : ℕ
  pub metadata : V

-- The map of performance data stays empty.
pub record AgentSession (F : Type 0) : Type 0 where
  pub name : String
  pub type_ : String
  pub enabled : Bool
  pub weight : F
  pub last_heartbeat : ℕ
  pub last_signal : ℕ
  pub signal_count : ℕ
  pub error_count : ℕ
  pub health_status : String

pub record Heartbeat : Type 0 where
  pub agent_name : String
  pub agent_type : String
  pub timestamp : ℕ
  pub status : String

-- The settings that the code below reads.
pub record OrchestratorConfig (F : Type 0) : Type 0 where
  pub step_interval : ℕ
  pub min_consensus : F
  pub min_confidence : F
  pub max_signal_age : ℕ

-- What the text of the reasoning is made of.
pub data Reason (F : Type 0) : Type 0 where
  voted : String → String → F → Reason F
  insufficient : F → F → F → F → Reason F

pub record TradingDecision (F : Type 0) : Type 0 where
  pub symbol : String
  pub action : String
  pub confidence : F
  pub consensus : F
  pub participating_agents : ℕ
  pub voting_results : Dict F
  pub reasoning : List (Reason F)
  pub timestamp : ℕ

-- What goes to the message bus: a decision, or the news of a pause or a resumption.
pub data Broadcast (F : Type 0) : Type 0 where
  decided : TradingDecision F → Broadcast F
  trading_paused trading_resumed : Broadcast F

-- Where the loop of `makeDecision` stands: between two ticks, before the decision for the first of
-- the symbols left, or after the second reading of the flag and before the publication.
pub data Cycle (F V : Type 0) : Type 0 where
  idle : Cycle F V
  deciding : Dict (List (AgentSignal F V)) → Cycle F V
  publishing : TradingDecision F → Dict (List (AgentSignal F V)) → Cycle F V

-- `stored_paused` is the state in the database, and none without one. The broadcasts are those since
-- the start, the latest last.
pub record Orchestrator (F V : Type 0) : Type 0 where
  pub config : OrchestratorConfig F
  pub agents : Dict (AgentSession F)
  pub signal_buffer : List (AgentSignal F V)
  pub paused : Bool
  pub cycle : Cycle F V
  pub stored_paused : Option Bool
  pub broadcasts : List (Broadcast F)

abbrev pub max_signal_buffer_size : ℕ
max_signal_buffer_size = 10000

-- Half of the buffer: `SignalBufferEvictionRatio` of its size.
abbrev pub evict_count : ℕ
evict_count = 5000

abbrev pub minutes : ℕ → ℕ
minutes n = n * 60000000000

abbrev weight_of : {F : Type 0} → Floats F → String → F
weight_of f agent_type =
    if str_eq agent_type "technical"
    then f.ratio 25 100
    else if str_eq agent_type "orderbook"
    then f.ratio 20 100
    else if str_eq agent_type "sentiment"
    then f.ratio 15 100
    else if str_eq agent_type "trend"
    then f.ratio 30 100
    else if str_eq agent_type "reversion"
    then f.ratio 25 100
    else if str_eq agent_type "arbitrage"
    then f.ratio 20 100
    else if str_eq agent_type "risk"
    then f.ratio 100 100
    else f.ratio 20 100

module _ {F : Type 0} where
  unfoldable pub get_default_weight : Floats F → String → F
  get_default_weight f agent_type = weight_of f agent_type

  abbrev pub session_alive : Floats F → Heartbeat → Option (AgentSession F) → AgentSession F
  session_alive f h (some session) = record session {
    last_heartbeat = h.timestamp;
    health_status = h.status;
  }
  session_alive f h none = record {
    name = h.agent_name;
    type_ = h.agent_type;
    enabled = true;
    weight = get_default_weight f h.agent_type;
    last_heartbeat = h.timestamp;
    last_signal = 0;
    signal_count = 0;
    error_count = 0;
    health_status = h.status;
  }

  unfoldable pub checked_session : ℕ → AgentSession F → AgentSession F
  checked_session now s =
      if ltb (s.last_heartbeat + minutes 5) now
      then record s { health_status = "UNHEALTHY"; enabled = false }
      else if ltb (s.last_signal + minutes 10) now
      then record s { health_status = "DEGRADED" }
      else record s { health_status = "HEALTHY" }

  unfoldable pub checked_sessions : ℕ → Dict (AgentSession F) → Dict (AgentSession F)
  unfolding checked_session
  checked_sessions now [] = []
  checked_sessions now ((name, s) ∷ rest) =
      (name, checked_session now s) ∷ checked_sessions now rest

module _ {F V : Type 0} where
  unfoldable pub new_orchestrator : OrchestratorConfig F → Option Bool → Orchestrator F V
  new_orchestrator config stored = record {
    config = config;
    agents = [];
    signal_buffer = [];
    paused = false;
    cycle = idle;
    stored_paused = stored;
    broadcasts = [];
  }

  -- The part of `Initialize` that reads the state of pause back: a read that fails leaves the flag.
  unfoldable pub load_state : Bool → Orchestrator F V → Orchestrator F V
  load_state read_done o = elim o.stored_paused [
    | none ↦ o
    | some stored ↦ if read_done then record o { paused = stored } else o
  ]

  abbrev pub session_after : Floats F → AgentSignal F V → Option (AgentSession F) → AgentSession F
  session_after f s (some session) = record session {
    last_signal = s.timestamp;
    signal_count = suc session.signal_count;
  }
  session_after f s none = record {
    name = s.agent_name;
    type_ = s.agent_type;
    enabled = true;
    weight = get_default_weight f s.agent_type;
    last_heartbeat = 0;
    last_signal = s.timestamp;
    signal_count = 1;
    error_count = 0;
    health_status = "UNKNOWN";
  }

  unfoldable pub update_agent_session :
      Floats F → AgentSignal F V → Dict (AgentSession F) → Dict (AgentSession F)
  unfolding get_default_weight lookup insert
  update_agent_session f s agents =
      insert s.agent_name (session_after f s (lookup s.agent_name agents)) agents

  unfoldable pub buffer_signal : AgentSignal F V → List (AgentSignal F V) → List (AgentSignal F V)
  buffer_signal s buffer =
      if leb max_signal_buffer_size (length buffer)
      then drop evict_count buffer ++ s ∷ []
      else buffer ++ s ∷ []

  -- `handleSignal` of a message that holds a signal.
  unfoldable pub handle_signal :
      Floats F → ℕ → AgentSignal F V → Orchestrator F V → Orchestrator F V
  unfolding update_agent_session buffer_signal
  handle_signal f now s o =
      if ltb (s.timestamp + o.config.max_signal_age) now then o else record o {
        agents = update_agent_session f s o.agents;
        signal_buffer = buffer_signal s o.signal_buffer;
      }

  unfoldable pub handle_heartbeat : Floats F → Heartbeat → Orchestrator F V → Orchestrator F V
  unfolding get_default_weight lookup insert
  handle_heartbeat f h o = record o {
    agents = insert h.agent_name (session_alive f h (lookup h.agent_name o.agents)) o.agents;
  }

  unfoldable pub check_agent_health : ℕ → Orchestrator F V → Orchestrator F V
  unfolding checked_sessions
  check_agent_health now o = record o { agents = checked_sessions now o.agents }

  unfoldable pub clean_old_signals : ℕ → Orchestrator F V → Orchestrator F V
  clean_old_signals now o = record o {
    signal_buffer = keep (λ s. leb now (s.timestamp + o.config.max_signal_age)) o.signal_buffer;
  }

-- ===== src/Orchestrator/Core/Silence.antt =====
-- internal/orchestrator/orchestrator.go: agents that a health check has disabled.
use cryptofunk.Prelude.{
  ℕ, ◌+◌, ltb, String, str_eq, Bool, true, false, not, ◌≡◌, refl, ap, inl, inr, Bool-cases, some,
  List, [], ◌∷◌, keep, arith,
}
use text.Mathlib.TextEquality.{eq_iff}
use cryptofunk.Prelude.Dict.{Dict, lookup, insert, lookup-insert}
use cryptofunk.Prelude.Floats.{Floats}
use cryptofunk.Orchestrator.Core.{
  AgentSignal, AgentSession, Cycle, idle, deciding, publishing, clean_old_signals, Heartbeat,
  Orchestrator, minutes, session_after, session_alive, update_agent_session, handle_signal,
  handle_heartbeat, checked_session, checked_sessions, check_agent_health, load_state,
}
use cryptofunk.Orchestrator.Core.Voting.{
  Tally, first_tally, count_votes, verdict, calculate_decision, begin_cycle, continue_from,
  continue_cycle, publish_decision,
}
use cryptofunk.Orchestrator.Core.Control.{pause, resume, pause_request-cases, resume_request-cases}
use cryptofunk.Orchestrator.Core.Run.{
  OrchestratorEvent, signalled, beat, checked, ticked, continued, pause_asked, resume_asked,
  pause_requested, resume_requested, initialized, step, steps,
}

module _ {F : Type 0} where
  abbrev pub IsDisabledIn : String → Dict (AgentSession F) → Type 0
  IsDisabledIn name agents =
      (s : AgentSession F) × (lookup name agents ≡ some s) × (s.enabled ≡ false)

  IsDisabledIn-insert :
      (name key : String) (new : AgentSession F) (agents : Dict (AgentSession F))
      → ((s : AgentSession F)
          → lookup key agents ≡ some s
          → s.enabled ≡ false
          → new.enabled ≡ false)
      → IsDisabledIn name agents
      → IsDisabledIn name (insert key new agents)
  IsDisabledIn-insert name key new agents k (s, found, off) = elim (Bool-cases (str_eq key name)) [
    | inl e ↦
        let same : key ≡ name = (eq_iff key name).0 e in
        let at_key : lookup key agents ≡ some s = rw same found in
        (new, rw (lookup-insert key name new agents, e) refl, k s at_key off)
    | inr e ↦ (s, rw (lookup-insert key name new agents, e) found, off)
  ]

  lookup-checked_sessions :
      (now : ℕ) (name : String) (agents : Dict (AgentSession F)) {s : AgentSession F}
      → lookup name agents ≡ some s
      → lookup name (checked_sessions now agents) ≡ some (checked_session now s)
  unfolding lookup checked_sessions
  lookup-checked_sessions now name [] l = cc
  lookup-checked_sessions now name ((key, t) ∷ rest) {s} l = elim (Bool-cases (str_eq key name)) [
    | inl e ↦
        let same : t ≡ s = cc (rw e at l) in rw e (ap (λ x. some (checked_session now x)) same)
    | inr e ↦ rw e (lookup-checked_sessions now name rest (rw e at l))
  ]

  checked_session-disabled :
      (now : ℕ) (s : AgentSession F) → s.enabled ≡ false → (checked_session now s).enabled ≡ false
  unfolding checked_session
  checked_session-disabled now s off = elim (Bool-cases (ltb (s.last_heartbeat + minutes 5) now)) [
    | inl e ↦ rw e refl
    | inr e ↦ elim (Bool-cases (ltb (s.last_signal + minutes 10) now)) [
      | inl d ↦ rw (e, d) off
      | inr d ↦ rw (e, d) off
    ]
  ]

  checked_session-silent :
      (now : ℕ) (s : AgentSession F)
      → ltb (s.last_heartbeat + minutes 5) now ≡ true
      → (checked_session now s).enabled ≡ false
  unfolding checked_session
  checked_session-silent now s late = rw late refl

module _ {F V : Type 0} where
  signal-disabled :
      (f : Floats F) (now : ℕ) (s : AgentSignal F V) (name : String) (o : Orchestrator F V)
      → IsDisabledIn name o.agents
      → IsDisabledIn name (handle_signal f now s o).agents
  unfolding handle_signal update_agent_session
  signal-disabled f now s name o d =
      elim (Bool-cases (ltb (s.timestamp + o.config.max_signal_age) now)) [
        | inl e ↦ rw e d
        | inr e ↦ rw e (
            IsDisabledIn-insert name s.agent_name (session_after f s (lookup s.agent_name o.agents))
              o.agents (λ t l off. rw l off) d)
      ]

  beat-disabled :
      (f : Floats F) (h : Heartbeat) (name : String) (o : Orchestrator F V)
      → IsDisabledIn name o.agents
      → IsDisabledIn name (handle_heartbeat f h o).agents
  unfolding handle_heartbeat
  beat-disabled f h name o d =
      IsDisabledIn-insert name h.agent_name (session_alive f h (lookup h.agent_name o.agents))
        o.agents (λ t l off. rw l off) d

  check-disabled :
      (now : ℕ) (name : String) (o : Orchestrator F V)
      → IsDisabledIn name o.agents
      → IsDisabledIn name (check_agent_health now o).agents
  unfolding check_agent_health
  check-disabled now name o (s, found, off) = (
    checked_session now s,
    lookup-checked_sessions now name o.agents found,
    checked_session-disabled now s off,
  )

  begin_cycle-agents : (now : ℕ) (o : Orchestrator F V) → (begin_cycle now o).agents ≡ o.agents
  unfolding begin_cycle
  begin_cycle-agents now o = ground arith

  continue_from-agents :
      (f : Floats F) (encodes : Bool) (now : ℕ) (cycle : Cycle F V) (o : Orchestrator F V)
      → (continue_from f encodes now cycle o).agents ≡ o.agents
  unfolding continue_from clean_old_signals publish_decision
  continue_from-agents f encodes now idle o = refl
  continue_from-agents f encodes now (deciding []) o = refl
  continue_from-agents f encodes now (deciding ((symbol, signals) ∷ rest)) o = ground arith
  continue_from-agents f encodes now (publishing decision rest) o = ground arith

  pause-agents : (w : Bool) (o : Orchestrator F V) → (pause w o).0.agents ≡ o.agents
  unfolding pause
  pause-agents w o = ground arith

  resume-agents : (w : Bool) (o : Orchestrator F V) → (resume w o).0.agents ≡ o.agents
  unfolding resume
  resume-agents w o = ground arith

  load_state-agents : (r : Bool) (o : Orchestrator F V) → (load_state r o).agents ≡ o.agents
  unfolding load_state
  load_state-agents r o = ground arith

  step-disabled :
      (f : Floats F) (event : OrchestratorEvent F V) (name : String) (o : Orchestrator F V)
      → IsDisabledIn name o.agents
      → IsDisabledIn name (step f event o).agents
  unfolding step continue_cycle
  step-disabled f (signalled now s) name o d = signal-disabled f now s name o d
  step-disabled f (beat h) name o d = beat-disabled f h name o d
  step-disabled f (checked now) name o d = check-disabled now name o d
  step-disabled f (ticked now) name o d = rw (begin_cycle-agents now o) d
  step-disabled f (continued encodes now) name o d =
      rw (continue_from-agents f encodes now o.cycle o) d
  step-disabled f (pause_asked w) name o d = rw (pause-agents w o) d
  step-disabled f (resume_asked w) name o d = rw (resume-agents w o) d
  step-disabled f (pause_requested m w) name o d =
      pause_request-cases (λ o'. IsDisabledIn name o'.agents) m w o d (rw (pause-agents w o) d)
  step-disabled f (resume_requested m w) name o d =
      resume_request-cases (λ o'. IsDisabledIn name o'.agents) m w o d (rw (resume-agents w o) d)
  step-disabled f (initialized r) name o d = rw (load_state-agents r o) d

  steps-disabled :
      (f : Floats F) (events : List (OrchestratorEvent F V)) (name : String) (o : Orchestrator F V)
      → IsDisabledIn name o.agents
      → IsDisabledIn name (steps f events o).agents
  unfolding steps
  steps-disabled f [] name o d = d
  steps-disabled f (event ∷ rest) name o d =
      steps-disabled f rest name (step f event o) (step-disabled f event name o d)

  -- The signals of other agents.
  abbrev pub signals_without : String → List (AgentSignal F V) → List (AgentSignal F V)
  signals_without name signals = keep (λ s. not (str_eq s.agent_name name)) signals

  count_votes-without :
      (f : Floats F) (name : String) (agents : Dict (AgentSession F))
      (signals : List (AgentSignal F V)) (t : Tally F)
      → IsDisabledIn name agents
      → count_votes f agents signals t ≡ count_votes f agents (signals_without name signals) t
  unfolding count_votes
  count_votes-without f name agents [] t d = refl
  count_votes-without f name agents (s ∷ rest) t d = elim (Bool-cases (str_eq s.agent_name name)) [
    | inl e ↦
        let (session, found, off) = d in
        let same : s.agent_name ≡ name = (eq_iff s.agent_name name).0 e in
        let there : lookup s.agent_name agents ≡ some session = rw same found in
        let ih = count_votes-without f name agents rest t d in rw (e, there, off) ih
    | inr e ↦ rw e (count_votes-without f name agents rest _ d)
  ]

  -- Once a health check finds an agent's last heartbeat more than five minutes old (or never set),
  -- then after any events, heartbeats of that agent included, every decision for any signals is the
  -- decision without that agent's signals.
  pub silenced :
      (f : Floats F) (now : ℕ) (events : List (OrchestratorEvent F V)) (name : String)
      (o : Orchestrator F V) (session : AgentSession F) (symbol : String)
      (signals : List (AgentSignal F V)) (timestamp : ℕ)
      → lookup name o.agents ≡ some session
      → ltb (session.last_heartbeat + minutes 5) now ≡ true
      → let later = steps f events (check_agent_health now o) in
        calculate_decision f later.agents later.config symbol signals timestamp
        ≡ calculate_decision f later.agents later.config symbol
            (signals_without name signals)
            timestamp
  unfolding check_agent_health calculate_decision
  silenced f now events name o session symbol signals timestamp found late =
      let later = steps f events (check_agent_health now o) in
      let off = steps-disabled f events name (check_agent_health now o) (
        checked_session now session,
        lookup-checked_sessions now name o.agents found,
        checked_session-silent now session late,
      ) in
      ap (verdict f later.config symbol timestamp)
        (count_votes-without f name later.agents signals (first_tally f) off)

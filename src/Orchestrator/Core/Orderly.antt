-- ===== src/Orchestrator/Core/Orderly.antt =====
-- internal/orchestrator/orchestrator.go: what holds of the orchestrator after any events.
use cryptofunk.Prelude.{
  String, ℕ, ◌+◌, ◌≤◌, ltb, leb, leb_false→lt, Bool, true, false, ◌≡◌, refl, subst, sym, ◌⊎◌, inl,
  inr, Bool-cases, Option-cases, Option, none, some, List, [], ◌∷◌, length, length-append,
  length-drop, length-keep, drop, arith,
}
use cryptofunk.Prelude.Dict.{Dict, lookup, Entries, Entries-insert, Entries-lookup}
use cryptofunk.Prelude.Floats.{Floats}
use cryptofunk.Orchestrator.Core.{
  AgentSignal, AgentSession, Cycle, idle, deciding, publishing, Heartbeat, OrchestratorConfig,
  TradingDecision, trading_paused, trading_resumed, Orchestrator, max_signal_buffer_size,
  evict_count, minutes, new_orchestrator, session_after, session_alive, update_agent_session,
  buffer_signal, handle_signal, handle_heartbeat, checked_session, checked_sessions,
  check_agent_health, load_state, clean_old_signals,
}
use cryptofunk.Orchestrator.Core.Voting.{
  begin_cycle, end_cycle, publish_decision, continue_from, continue_cycle, calculate_decision,
  get_recent_signals_by_symbol,
}
use cryptofunk.Orchestrator.Core.Control.{
  set_paused, pause, resume, pause_request-cases, resume_request-cases,
}
use cryptofunk.Orchestrator.Core.Run.{
  OrchestratorEvent, signalled, beat, checked, ticked, continued, pause_asked, resume_asked,
  pause_requested, resume_requested, initialized, step, steps,
}

module _ {F V : Type 0} where
  -- The database, where there is one, holds the flag.
  abbrev pub IsSaved : Orchestrator F V → Type 0
  IsSaved o = (o.stored_paused ≡ none) ⊎ (o.stored_paused ≡ some o.paused)

  abbrev pub IsOrderly : Orchestrator F V → Type 0
  IsOrderly o =
      IsSaved o
      × (length o.signal_buffer ≤ max_signal_buffer_size)
      × Entries (λ name session. session.name ≡ name) o.agents

module _ {F : Type 0} where
  checked_session-name : (now : ℕ) (s : AgentSession F) → (checked_session now s).name ≡ s.name
  unfolding checked_session
  checked_session-name now s = elim (Bool-cases (ltb (s.last_heartbeat + minutes 5) now)) [
    | inl e ↦ rw e refl
    | inr e ↦ elim (Bool-cases (ltb (s.last_signal + minutes 10) now)) [
      | inl d ↦ rw (e, d) refl
      | inr d ↦ rw (e, d) refl
    ]
  ]

  checked_sessions-named :
      (now : ℕ) (agents : Dict (AgentSession F))
      → Entries (λ name session. session.name ≡ name) agents
      → Entries (λ name session. session.name ≡ name) (checked_sessions now agents)
  unfolding checked_sessions
  checked_sessions-named now [] h = tt
  checked_sessions-named now ((name, s) ∷ rest) h =
      (rw (checked_session-name now s) h.0, checked_sessions-named now rest h.1)

started-IsOrderly :
    {F : Type 0} (V : Type 0) (config : OrchestratorConfig F) (stored : Option Bool)
    → IsOrderly {V = V} (load_state true (new_orchestrator config stored))
unfolding load_state new_orchestrator
started-IsOrderly V config none = (inl refl, omega arith, tt)
started-IsOrderly V config (some b) = (inr refl, omega arith, tt)

module _ {F V : Type 0} where
  buffer_signal-le :
      (s : AgentSignal F V) (buffer : List (AgentSignal F V))
      → length buffer ≤ max_signal_buffer_size
      → length (buffer_signal s buffer) ≤ max_signal_buffer_size
  unfolding buffer_signal
  buffer_signal-le s buffer h = elim (Bool-cases (leb max_signal_buffer_size (length buffer))) [
    | inl e ↦
        rw (e, length-append (drop evict_count buffer) (s ∷ []), length-drop evict_count buffer)
          (omega (arith, h))
    | inr e ↦
        let less = leb_false→lt max_signal_buffer_size (length buffer) e in
        rw (e, length-append buffer (s ∷ [])) (omega (arith, less))
  ]

  signal-IsOrderly :
      (f : Floats F) (now : ℕ) (s : AgentSignal F V) (o : Orchestrator F V)
      → IsOrderly o
      → IsOrderly (handle_signal f now s o)
  unfolding handle_signal update_agent_session
  signal-IsOrderly f now s o (saved, few, named) =
      elim (Bool-cases (ltb (s.timestamp + o.config.max_signal_age) now)) [
        | inl e ↦ rw e (saved, few, named)
        | inr e ↦
            let key = s.agent_name in
            let made : (session_after f s (lookup key o.agents)).name ≡ key =
              elim (Option-cases (lookup key o.agents)) [
                | inl l ↦ rw l refl
                | inr (t, l) ↦ rw l (Entries-lookup _ key o.agents named l)
              ] in
            rw e (saved, buffer_signal-le s _ few, Entries-insert _ key _ o.agents made named)
      ]

  beat-IsOrderly :
      (f : Floats F) (h : Heartbeat) (o : Orchestrator F V)
      → IsOrderly o
      → IsOrderly (handle_heartbeat f h o)
  unfolding handle_heartbeat
  beat-IsOrderly f h o (saved, few, named) =
      let key = h.agent_name in
      let made : (session_alive f h (lookup key o.agents)).name ≡ key =
        elim (Option-cases (lookup key o.agents)) [
          | inl l ↦ rw l refl
          | inr (t, l) ↦ rw l (Entries-lookup _ key o.agents named l)
        ] in
      (saved, few, Entries-insert _ key _ o.agents made named)

  check-IsOrderly :
      (now : ℕ) (o : Orchestrator F V) → IsOrderly o → IsOrderly (check_agent_health now o)
  unfolding check_agent_health
  check-IsOrderly now o (saved, few, named) =
      (saved, few, checked_sessions-named now o.agents named)

  clean-few :
      (now : ℕ) (o : Orchestrator F V)
      → length o.signal_buffer ≤ max_signal_buffer_size
      → length (clean_old_signals now o).signal_buffer ≤ max_signal_buffer_size
  unfolding clean_old_signals
  clean-few now o few =
      let less =
        length-keep (λ s. leb now (s.timestamp + o.config.max_signal_age)) o.signal_buffer in
      omega (arith, less, few)

  begin-cases :
      (now : ℕ) (o : Orchestrator F V)
      → (begin_cycle now o ≡ o)
        ⊎ ((cycle : Cycle F V) × (begin_cycle now o ≡ record o { cycle = cycle }))
  unfolding begin_cycle
  begin-cases now o = elim (Bool-cases o.paused) [
    | inl p ↦ inl (ground (arith, p))
    | inr p ↦ begun o.cycle refl p
  ]
    where
      begun :
          (cycle : Cycle F V)
          → o.cycle ≡ cycle
          → o.paused ≡ false
          → (begin_cycle now o ≡ o)
            ⊎ ((cycle : Cycle F V) × (begin_cycle now o ≡ record o { cycle = cycle }))
      begun idle c p = inr (deciding (get_recent_signals_by_symbol now o), ground (arith, p, c))
      begun (deciding groups) c p = inl (ground (arith, p, c))
      begun (publishing decision groups) c p = inl (ground (arith, p, c))

  begin-IsOrderly : (now : ℕ) (o : Orchestrator F V) → IsOrderly o → IsOrderly (begin_cycle now o)
  begin-IsOrderly now o h = elim (begin-cases now o) [
    | inl e ↦ subst IsOrderly (sym e) h
    | inr (cycle, e) ↦ subst IsOrderly (sym e) h
  ]

  end-IsOrderly : (now : ℕ) (o : Orchestrator F V) → IsOrderly o → IsOrderly (end_cycle now o)
  unfolding clean_old_signals
  end-IsOrderly now o h = (h.0, clean-few now o h.1, h.2)

  publish-cases :
      (encodes : Bool) (decision : TradingDecision F) (o : Orchestrator F V)
      → IsOrderly o
      → IsOrderly (publish_decision encodes decision o)
  unfolding publish_decision
  publish-cases true decision o h = h
  publish-cases false decision o h = h

  continue_from-IsOrderly :
      (f : Floats F) (encodes : Bool) (now : ℕ) (cycle : Cycle F V) (o : Orchestrator F V)
      → IsOrderly o
      → IsOrderly (continue_from f encodes now cycle o)
  unfolding continue_from
  continue_from-IsOrderly f encodes now idle o h = h
  continue_from-IsOrderly f encodes now (deciding []) o h = end-IsOrderly now o h
  continue_from-IsOrderly f encodes now (deciding ((symbol, signals) ∷ rest)) o h =
      elim (decide-cases f encodes now symbol signals rest o) [
        | inl e ↦ subst IsOrderly (sym e) (end-IsOrderly now o h)
        | inr (cycle, e) ↦ subst IsOrderly (sym e) h
      ]
    where
      decide-cases :
          (f : Floats F) (encodes : Bool) (now : ℕ) (symbol : String)
          (signals : List (AgentSignal F V)) (rest : Dict (List (AgentSignal F V)))
          (o : Orchestrator F V)
          → let next = continue_from f encodes now (deciding ((symbol, signals) ∷ rest)) o in
            (next ≡ end_cycle now o) ⊎ ((cycle : Cycle F V) × (next ≡ record o { cycle = cycle }))
      decide-cases f encodes now symbol signals rest o = elim (Bool-cases o.paused) [
        | inl p ↦ inl (ground (arith, p))
        | inr p ↦ inr (
          publishing (calculate_decision f o.agents o.config symbol signals now) rest,
          ground (arith, p),
        )
      ]
  continue_from-IsOrderly f encodes now (publishing decision rest) o h =
      publish-cases encodes decision o h

  pause-cases :
      (w : Bool) (o : Orchestrator F V)
      → ((pause w o).0 ≡ o)
        ⊎ (((pause w o).0 ≡ set_paused true none trading_paused o)
            ⊎ ((pause w o).0 ≡ set_paused true (some true) trading_paused o))
  unfolding pause
  pause-cases w o = ground arith

  pause-IsOrderly : (w : Bool) (o : Orchestrator F V) → IsOrderly o → IsOrderly (pause w o).0
  pause-IsOrderly w o h = elim (pause-cases w o) [
    | inl e ↦ subst IsOrderly (sym e) h
    | inr (inl e) ↦ subst IsOrderly (sym e) (inl refl, h.1, h.2)
    | inr (inr e) ↦ subst IsOrderly (sym e) (inr refl, h.1, h.2)
  ]

  resume-cases :
      (w : Bool) (o : Orchestrator F V)
      → ((resume w o).0 ≡ o)
        ⊎ (((resume w o).0 ≡ set_paused false none trading_resumed o)
            ⊎ ((resume w o).0 ≡ set_paused false (some false) trading_resumed o))
  unfolding resume
  resume-cases w o = ground arith

  resume-IsOrderly : (w : Bool) (o : Orchestrator F V) → IsOrderly o → IsOrderly (resume w o).0
  resume-IsOrderly w o h = elim (resume-cases w o) [
    | inl e ↦ subst IsOrderly (sym e) h
    | inr (inl e) ↦ subst IsOrderly (sym e) (inl refl, h.1, h.2)
    | inr (inr e) ↦ subst IsOrderly (sym e) (inr refl, h.1, h.2)
  ]

  load-cases :
      (r : Bool) (o : Orchestrator F V)
      → (load_state r o ≡ o)
        ⊎ ((b : Bool) × (o.stored_paused ≡ some b) × (load_state r o ≡ record o { paused = b }))
  unfolding load_state
  load-cases r o = ground arith

  load-IsOrderly : (r : Bool) (o : Orchestrator F V) → IsOrderly o → IsOrderly (load_state r o)
  unfolding load_state
  load-IsOrderly r o h = elim (load-cases r o) [
    | inl e ↦ subst IsOrderly (sym e) h
    | inr (b, d, e) ↦ subst IsOrderly (sym e) (inr d, h.1, h.2)
  ]

  step-IsOrderly :
      (f : Floats F) (event : OrchestratorEvent F V) (o : Orchestrator F V)
      → IsOrderly o
      → IsOrderly (step f event o)
  unfolding step continue_cycle
  step-IsOrderly f (signalled now s) o h = signal-IsOrderly f now s o h
  step-IsOrderly f (beat b) o h = beat-IsOrderly f b o h
  step-IsOrderly f (checked now) o h = check-IsOrderly now o h
  step-IsOrderly f (ticked now) o h = begin-IsOrderly now o h
  step-IsOrderly f (continued encodes now) o h = continue_from-IsOrderly f encodes now o.cycle o h
  step-IsOrderly f (pause_asked w) o h = pause-IsOrderly w o h
  step-IsOrderly f (resume_asked w) o h = resume-IsOrderly w o h
  step-IsOrderly f (pause_requested m w) o h =
      pause_request-cases IsOrderly m w o h (pause-IsOrderly w o h)
  step-IsOrderly f (resume_requested m w) o h =
      resume_request-cases IsOrderly m w o h (resume-IsOrderly w o h)
  step-IsOrderly f (initialized r) o h = load-IsOrderly r o h

  keeps-IsOrderly :
      (f : Floats F) (events : List (OrchestratorEvent F V)) (o : Orchestrator F V)
      → IsOrderly o
      → IsOrderly (steps f events o)
  unfolding steps
  keeps-IsOrderly f [] o h = h
  keeps-IsOrderly f (event ∷ rest) o h =
      keeps-IsOrderly f rest (step f event o) (step-IsOrderly f event o h)

  -- After a start that reads the stored state of pause, if there is one, and any events: a database
  -- holds whether trading is paused, at most 10000 signals are buffered, and every session is held
  -- under its agent's name.
  pub steps-IsOrderly :
      (f : Floats F) (events : List (OrchestratorEvent F V)) (config : OrchestratorConfig F)
      (stored : Option Bool)
      → IsOrderly (steps f events (load_state true (new_orchestrator config stored)))
  steps-IsOrderly f events config stored =
      keeps-IsOrderly f events _ (started-IsOrderly V config stored)

-- ===== src/Orchestrator/Core/Run.antt =====
-- internal/orchestrator/orchestrator.go: the handlers and loops as steps in any order, and the record
-- of the pause. `Initialize` may find a state in the database, and reads it or fails to.
use cryptofunk.Prelude.{
  ℕ, String, ◌+◌, ltb, Bool, true, ◌≡◌, refl, sym, subst, ◌⊎◌, false, inl, inr, Bool-cases,
  Option-cases, List, [], ◌∷◌, ◌++◌, ok, All,
}
use cryptofunk.Prelude.Dict.{Dict}
use cryptofunk.Prelude.Floats.{Floats}
use cryptofunk.Orchestrator.Core.{
  AgentSignal, Cycle, idle, deciding, publishing, decided, Broadcast, clean_old_signals, Heartbeat,
  TradingDecision, trading_paused, Orchestrator, handle_signal, handle_heartbeat,
  check_agent_health, load_state,
}
use cryptofunk.Orchestrator.Core.Voting.{
  begin_cycle, publish_decision, continue_from, continue_cycle,
}
use cryptofunk.Orchestrator.Core.Control.{
  pause, resume, handle_pause_request, handle_resume_request, pause_request-cases,
}

pub data OrchestratorEvent (F V : Type 0) : Type 0 where
  signalled : ℕ → AgentSignal F V → OrchestratorEvent F V
  beat : Heartbeat → OrchestratorEvent F V
  checked : ℕ → OrchestratorEvent F V
  ticked : ℕ → OrchestratorEvent F V
  continued : Bool → ℕ → OrchestratorEvent F V
  pause_asked : Bool → OrchestratorEvent F V
  resume_asked : Bool → OrchestratorEvent F V
  pause_requested : String → Bool → OrchestratorEvent F V
  resume_requested : String → Bool → OrchestratorEvent F V
  initialized : Bool → OrchestratorEvent F V

module _ {F V : Type 0} where
  unfoldable pub step : Floats F → OrchestratorEvent F V → Orchestrator F V → Orchestrator F V
  step f (signalled now s) o = handle_signal f now s o
  step f (beat h) o = handle_heartbeat f h o
  step f (checked now) o = check_agent_health now o
  step f (ticked now) o = begin_cycle now o
  step f (continued encodes now) o = continue_cycle f encodes now o
  step f (pause_asked write_done) o = (pause write_done o).0
  step f (resume_asked write_done) o = (resume write_done o).0
  step f (pause_requested method write_done) o = (handle_pause_request method write_done o).0
  step f (resume_requested method write_done) o = (handle_resume_request method write_done o).0
  step f (initialized read_done) o = load_state read_done o

  unfoldable pub steps :
      Floats F → List (OrchestratorEvent F V) → Orchestrator F V → Orchestrator F V
  unfolding step
  steps f [] o = o
  steps f (event ∷ rest) o = steps f rest (step f event o)

  -- Neither `Resume`, or a request for it, nor `Initialize`.
  abbrev pub KeepsPause : OrchestratorEvent F V → Type 0
  KeepsPause (signalled now s) = Unit
  KeepsPause (beat h) = Unit
  KeepsPause (checked now) = Unit
  KeepsPause (ticked now) = Unit
  KeepsPause (continued encodes now) = Unit
  KeepsPause (pause_asked write_done) = Unit
  KeepsPause (resume_asked write_done) = ⊥
  KeepsPause (pause_requested method write_done) = Unit
  KeepsPause (resume_requested method write_done) = ⊥
  KeepsPause (initialized read_done) = ⊥

  -- The decision that a cycle is about to publish.
  abbrev pub pending : Cycle F V → List (Broadcast F)
  pending idle = []
  pending (deciding groups) = []
  pending (publishing decision rest) = decided decision ∷ []

  -- While the decision of the cycle `c` may wait, the broadcasts are those of `base`, and when none
  -- waits, there may be that decision after them.
  abbrev NotLate : Cycle F V → List (Broadcast F) → List (Broadcast F) → List (Broadcast F) → Type 0
  NotLate c base sent waiting =
      ((sent ≡ base) × (waiting ≡ pending c))
      ⊎ ((waiting ≡ []) × ((sent ≡ base) ⊎ (sent ≡ base ++ pending c)))

  Quiet : Cycle F V → List (Broadcast F) → Orchestrator F V → Type 0
  Quiet c base o = (o.paused ≡ true) × NotLate c base o.broadcasts (pending o.cycle)

  begin_cycle-paused : (now : ℕ) (o : Orchestrator F V) → o.paused ≡ true → begin_cycle now o ≡ o
  unfolding begin_cycle
  begin_cycle-paused now o p = rw p

  pause-again :
      (write_done : Bool) (o : Orchestrator F V) → o.paused ≡ true → (pause write_done o).0 ≡ o
  unfolding pause
  pause-again write_done o p = rw p

  publish-Quiet :
      (encodes : Bool) (decision : TradingDecision F) (rest : Dict (List (AgentSignal F V)))
      (c : Cycle F V) (base : List (Broadcast F)) (o : Orchestrator F V)
      → pending o.cycle ≡ decided decision ∷ []
      → Quiet c base o
      → Quiet c base (record (publish_decision encodes decision o) { cycle = deciding rest })
  unfolding Quiet publish_decision
  publish-Quiet encodes decision rest c base o at (p, inr (empty, past)) = cc
  publish-Quiet false decision rest c base o at (p, inl (same, waits)) = (p, inr (refl, inl same))
  publish-Quiet true decision rest c base o at (p, inl (same, waits)) =
      let out : o.broadcasts ++ decided decision ∷ [] ≡ base ++ pending c = cc (same, waits, at) in
      (p, inr (refl, inr out))

  continue_from-Quiet :
      (f : Floats F) (encodes : Bool) (now : ℕ) (cycle c : Cycle F V) (base : List (Broadcast F))
      (o : Orchestrator F V)
      → pending o.cycle ≡ pending cycle
      → Quiet c base o
      → Quiet c base (continue_from f encodes now cycle o)
  unfolding Quiet continue_from clean_old_signals
  continue_from-Quiet f encodes now idle c base o at q = q
  continue_from-Quiet f encodes now (deciding []) c base o at (p, q) =
      (p, subst (λ l. NotLate c base o.broadcasts l) at q)
  continue_from-Quiet f encodes now (deciding ((symbol, signals) ∷ rest)) c base o at (p, q) =
      rw p (refl, subst (λ l. NotLate c base o.broadcasts l) at q)
  continue_from-Quiet f encodes now (publishing decision rest) c base o at q =
      publish-Quiet encodes decision rest c base o at q

  step-Quiet :
      (f : Floats F) (event : OrchestratorEvent F V) (c : Cycle F V) (base : List (Broadcast F))
      (o : Orchestrator F V)
      → KeepsPause event
      → Quiet c base o
      → Quiet c base (step f event o)
  unfolding Quiet step handle_signal handle_heartbeat check_agent_health continue_cycle
  step-Quiet f (signalled now s) c base o k q =
      elim (Bool-cases (ltb (s.timestamp + o.config.max_signal_age) now)) [
        | inl e ↦ rw e q
        | inr e ↦ rw e q
      ]
  step-Quiet f (beat h) c base o k q = q
  step-Quiet f (checked now) c base o k q = q
  step-Quiet f (ticked now) c base o k q =
      subst (Quiet c base) (sym (begin_cycle-paused now o q.0)) q
  step-Quiet f (continued encodes now) c base o k q =
      continue_from-Quiet f encodes now o.cycle c base o refl q
  step-Quiet f (pause_asked write_done) c base o k q =
      subst (Quiet c base) (sym (pause-again write_done o q.0)) q
  step-Quiet f (resume_asked write_done) c base o k q = elim k [ ]
  step-Quiet f (pause_requested method write_done) c base o k q =
      pause_request-cases (Quiet c base) method write_done o q
        (subst (Quiet c base) (sym (pause-again write_done o q.0)) q)
  step-Quiet f (resume_requested method write_done) c base o k q = elim k [ ]
  step-Quiet f (initialized read_done) c base o k q = elim k [ ]

  steps-Quiet :
      (f : Floats F) (events : List (OrchestratorEvent F V)) (c : Cycle F V)
      (base : List (Broadcast F)) (o : Orchestrator F V)
      → All KeepsPause events
      → Quiet c base o
      → Quiet c base (steps f events o)
  unfolding steps
  steps-Quiet f [] c base o k q = q
  steps-Quiet f (event ∷ rest) c base o k q =
      steps-Quiet f rest c base (step f event o) k.1 (step-Quiet f event c base o k.0 q)

  pause-Quiet :
      (write_done : Bool) (o : Orchestrator F V)
      → (pause write_done o).1 ≡ ok tt
      → Quiet o.cycle (o.broadcasts ++ trading_paused ∷ []) (pause write_done o).0
  unfolding Quiet pause
  pause-Quiet write_done o done = elim (Bool-cases o.paused) [
    | inl p ↦ cc (rw p at done)
    | inr p ↦ elim (Option-cases o.stored_paused) [
      | inl d ↦ rw (p, d) (refl, inl (refl, refl))
      | inr (b, d) ↦ elim (Bool-cases write_done) [
        | inl w ↦ rw (p, d, w) (refl, inl (refl, refl))
        | inr w ↦ cc (rw (p, d, w) at done)
      ]
    ]
  ]

  -- After a `Pause` that succeeds, whatever signals, heartbeats, checks, ticks, steps of the decision
  -- cycle, further calls of `Pause` and requests for it come in whatever order, until `Resume` (by a
  -- request or not) or `Initialize` is called: trading stays paused, and what has gone to the message
  -- bus after the news of the pause is nothing, or the one decision that the running cycle had let
  -- past its second reading of the flag before the pause.
  pub pause-silent :
      (f : Floats F) (write_done : Bool) (events : List (OrchestratorEvent F V))
      (o : Orchestrator F V)
      → (pause write_done o).1 ≡ ok tt
      → All KeepsPause events
      → let later = steps f events (pause write_done o).0 in
        let told = o.broadcasts ++ trading_paused ∷ [] in
        (later.paused ≡ true)
        × ((later.broadcasts ≡ told) ⊎ (later.broadcasts ≡ told ++ pending o.cycle))
  unfolding Quiet
  pause-silent f write_done events o done k =
      let told = o.broadcasts ++ trading_paused ∷ [] in
      let (p, q) =
        steps-Quiet f events o.cycle told (pause write_done o).0 k
          (pause-Quiet write_done o done) in
      (p, elim q [ inl (same, waits) ↦ inl same | inr (empty, past) ↦ past ])

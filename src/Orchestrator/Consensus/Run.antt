-- ===== src/Orchestrator/Consensus/Run.antt =====
-- internal/orchestrator/consensus.go: whole runs of the manager's Delphi sessions.
use cryptofunk.Prelude.{
  ℕ, ltb, String, ◌≡◌, refl, sym, subst, ◌⊎◌, Bool-cases, Option-cases, inl, inr, Option, none,
  some, List, [], ◌∷◌, arith,
}
use cryptofunk.Prelude.Dict.{Dict, insert, Entries, Entries-insert, Entries-lookup, lookup}
use cryptofunk.Prelude.Floats.{Floats}
use cryptofunk.Orchestrator.Consensus.{
  ConsensusConfig, ConsensusSession, ConsensusManager, Response, new_consensus_manager_with_config,
}
use cryptofunk.Orchestrator.Consensus.Rounds.{Outside, start_delphi_round, respond, timed_out}
use cryptofunk.Orchestrator.Consensus.Delphi.{
  check_start, response_of, new_delphi_session, submit_delphi_response, round_timeout_handler,
  start_delphi_consensus, cleanup_expired_sessions, sweep,
}
use cryptofunk.Orchestrator.Consensus.Shape.{IsSound}
use cryptofunk.Orchestrator.Consensus.Sound.{respond-IsSound, timed_out-IsSound}

-- The calls that change the sessions, and a timer that fires, each with what they are called on.
pub data Event (F : Type 0) : Type 0 where
  starts : Outside F → String → String → String → List String → ConsensusConfig F → Event F
  submits : Outside F → String → String → F → F → String → Event F
  fires : Outside F → String → ℕ → Event F
  cleans : ℕ → Event F

module _ {F : Type 0} where
  unfoldable pub handle_event : Event F → ConsensusManager F → ConsensusManager F
  handle_event (starts o id topic question participants config) cm =
      (start_delphi_consensus o id topic question participants config cm).0
  handle_event (submits o id name value confidence reasoning) cm =
      (submit_delphi_response o id name value confidence reasoning cm).0
  handle_event (fires o id number) cm = round_timeout_handler o id number cm
  handle_event (cleans now) cm = (cleanup_expired_sessions now cm).0

  unfoldable pub handle_events : List (Event F) → ConsensusManager F → ConsensusManager F
  handle_events [] cm = cm
  handle_events (e ∷ es) cm = handle_events es (handle_event e cm)

  abbrev pub first_session :
      Outside F → String → String → String → List String → ConsensusConfig F → ConsensusSession F
  first_session o id topic question participants config =
      (start_delphi_round o config (new_delphi_session o id topic question participants config)).0

  -- What a predicate on the stored sessions asks of an event that starts a session.
  abbrev pub StartMeets : (String → ConsensusSession F → Type 0) → Event F → Type 0
  StartMeets Q (starts o id topic question participants config) =
      Q id (first_session o id topic question participants config)
  StartMeets Q (submits _ _ _ _ _ _) = Unit
  StartMeets Q (fires _ _ _) = Unit
  StartMeets Q (cleans _) = Unit

  pub sweep-Entries :
      (Q : String → ConsensusSession F → Type 0) (now : ℕ) (m : Dict (ConsensusSession F))
      → Entries Q m
      → Entries Q (sweep now m).0
  unfolding sweep
  sweep-Entries Q now [] h = tt
  sweep-Entries Q now ((id, s) ∷ rest) h = elim (Bool-cases (ltb s.expires_at now)) [
    | inl e ↦ rw e (sweep-Entries Q now rest h.1)
    | inr e ↦ rw e (h.0, sweep-Entries Q now rest h.1)
  ]

  -- What a call leaves stored.
  pub start-sessions :
      (o : Outside F) (id topic question : String) (participants : List String)
      (config : ConsensusConfig F) (cm : ConsensusManager F)
      → let stored =
          (start_delphi_consensus o id topic question participants config cm).0.sessions in
        (stored ≡ cm.sessions)
        ⊎ ((stored ≡ insert id (first_session o id topic question participants config) cm.sessions)
            × (check_start o participants config cm ≡ none))
  unfolding start_delphi_consensus
  start-sessions o id topic question participants config cm =
      elim (Option-cases (check_start o participants config cm)) [
        | inl n ↦ inr (rw (n, start_delphi_consensus), n)
        | inr (e, n) ↦ inl (rw (n, start_delphi_consensus))
      ]

  pub submit-sessions :
      (o : Outside F) (id name : String) (value confidence : F) (reasoning : String)
      (cm : ConsensusManager F)
      → let stored = (submit_delphi_response o id name value confidence reasoning cm).0.sessions in
        (stored ≡ cm.sessions)
        ⊎ ((s : ConsensusSession F) × (r : Response F) × (lookup id cm.sessions ≡ some s)
            × (stored ≡ insert id (respond o r s).0.0 cm.sessions))
  unfolding submit_delphi_response
  submit-sessions o id name value confidence reasoning cm =
      elim (Option-cases (lookup id cm.sessions)) [
        | inl g ↦ inl (rw (g, submit_delphi_response))
        | inr (s, g) ↦
            inr
              (s, response_of o name value confidence reasoning, g, rw (g, submit_delphi_response))
      ]

  pub timeout-sessions :
      (o : Outside F) (id : String) (number : ℕ) (cm : ConsensusManager F)
      → let stored = (round_timeout_handler o id number cm).sessions in
        (stored ≡ cm.sessions)
        ⊎ ((s : ConsensusSession F) × (lookup id cm.sessions ≡ some s)
            × (stored ≡ insert id (timed_out o number s).0 cm.sessions))
  unfolding round_timeout_handler
  timeout-sessions o id number cm = elim (Option-cases (lookup id cm.sessions)) [
    | inl g ↦ inl (rw (g, round_timeout_handler))
    | inr (s, g) ↦ inr (s, g, rw (g, round_timeout_handler))
  ]

  -- A predicate that responses and timers keep holds of every session after any event.
  pub handle_event-Entries :
      (Q : String → ConsensusSession F → Type 0)
      → ((id : String) (o : Outside F) (r : Response F) (s : ConsensusSession F)
          → Q id s
          → Q id (respond o r s).0.0)
      → ((id : String) (o : Outside F) (number : ℕ) (s : ConsensusSession F)
          → Q id s
          → Q id (timed_out o number s).0)
      → (e : Event F) (cm : ConsensusManager F) → StartMeets Q e
      → Entries Q cm.sessions
      → Entries Q (handle_event e cm).sessions
  unfolding handle_event cleanup_expired_sessions
  handle_event-Entries Q keeps_r keeps_t (starts o id topic question participants config) cm new h =
      elim (start-sessions o id topic question participants config cm) [
        | inl e ↦ subst (Entries Q) (sym e) h
        | inr (e, room) ↦ subst (Entries Q) (sym e) (Entries-insert Q id _ cm.sessions new h)
      ]
  handle_event-Entries Q keeps_r keeps_t (submits o id name value confidence reasoning) cm new h =
      elim (submit-sessions o id name value confidence reasoning cm) [
        | inl e ↦ subst (Entries Q) (sym e) h
        | inr (s, r, g, e) ↦
            let kept = keeps_r id o r s (Entries-lookup Q id cm.sessions h g) in
            subst (Entries Q) (sym e) (Entries-insert Q id _ cm.sessions kept h)
      ]
  handle_event-Entries Q keeps_r keeps_t (fires o id number) cm new h =
      elim (timeout-sessions o id number cm) [
        | inl e ↦ subst (Entries Q) (sym e) h
        | inr (s, g, e) ↦
            let kept = keeps_t id o number s (Entries-lookup Q id cm.sessions h g) in
            subst (Entries Q) (sym e) (Entries-insert Q id _ cm.sessions kept h)
      ]
  handle_event-Entries Q keeps_r keeps_t (cleans now) cm new h = sweep-Entries Q now cm.sessions h

  -- A session is sound as soon as it is started.
  pub first_session-IsSound :
      (o : Outside F) (id topic question : String) (participants : List String)
      (config : ConsensusConfig F)
      → IsSound (first_session o id topic question participants config)
  unfolding start_delphi_round
  first_session-IsSound o id topic question participants config =
      (([], _, refl, tt, refl, refl, ground arith), refl)

  StartMeets-IsSound : (e : Event F) → StartMeets (λ id s. IsSound s) e
  StartMeets-IsSound (starts o id topic question participants config) =
      first_session-IsSound o id topic question participants config
  StartMeets-IsSound (submits _ _ _ _ _ _) = tt
  StartMeets-IsSound (fires _ _ _) = tt
  StartMeets-IsSound (cleans _) = tt

  handle_events-Entries-IsSound :
      (es : List (Event F)) (cm : ConsensusManager F)
      → Entries (λ id s. IsSound s) cm.sessions
      → Entries (λ id s. IsSound s) (handle_events es cm).sessions
  unfolding handle_events
  handle_events-Entries-IsSound [] cm h = h
  handle_events-Entries-IsSound (e ∷ es) cm h =
      handle_events-Entries-IsSound es (handle_event e cm) (
        handle_event-Entries (λ id s. IsSound s) (λ id o r s. respond-IsSound o r s)
          (λ id o number s. timed_out-IsSound o number s) e cm (StartMeets-IsSound e) h)

  -- After any calls and timers in any order, on a manager with any configuration, every stored
  -- session is sound: it is active, failed or converged; its rounds are numbered from 1 and are at
  -- most the larger of 1 and the configured maximum; all but the last are completed; the last is
  -- open if the session is active or failed, and completed if it converged; and a result is there
  -- exactly for a session that converged, with the number of its rounds.
  pub handle_events-IsSound :
      (f : Floats F) (config : Option (ConsensusConfig F)) (es : List (Event F)) (id : String)
      {s : ConsensusSession F}
      → lookup id (handle_events es (new_consensus_manager_with_config f config)).sessions ≡ some s
      → IsSound s
  handle_events-IsSound f config es id l =
      Entries-lookup (λ id s. IsSound s) id _
        (handle_events-Entries-IsSound es (new_consensus_manager_with_config f config)
          (unfold new_consensus_manager_with_config in tt))
        l

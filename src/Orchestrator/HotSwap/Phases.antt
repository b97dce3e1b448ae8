-- ===== src/Orchestrator/HotSwap/Phases.antt =====
-- How the phases of a swap (internal/orchestrator/hotswap.go, SwapAgent) go, one by one.
use cryptofunk.Prelude.{
  ℕ, ◌≡◌, refl, ap, ◌∙◌, inl, inr, String, true, false, Option, none, some, List, [], ◌∷◌, ◌++◌,
  str_eq, if◌then◌else◌, Bool-cases, length, get_elem?, set, ok, err,
}
use cryptofunk.Prelude.Dict.{insert, erase}
use cryptofunk.Orchestrator.HotSwap.{
  AgentStatus, agent_active, agent_paused, agent_terminating, AgentState, AgentRegistration,
  AgentSpec, SwapError, name_required, not_registered, pause_not_sent, start_not_sent,
  not_responsive, SwapSession, unsubscribed, swap_completed, sent, posted, HotSwapCoordinator,
  registration_of, register_agent, agent_of, unregister_agent, unsubscribe_all, update_registration,
  with_status, emit,
}
use cryptofunk.Orchestrator.HotSwap.Steps.{
  copied, World, snapshot_taken, state_made, registered, heartbeat, captured,
}
use cryptofunk.Orchestrator.HotSwap.Swap.{
  Phase, capture_state, pause_agent, transfer_state, start_new_agent, verify_agent, resume_agent,
  finish,
}

module _ {V : Type 0} where
  -- The coordinator after a status was written and a command was sent.
  abbrev pub told :
      AgentStatus
      → String
      → ℕ
      → String
      → AgentRegistration V
      → HotSwapCoordinator V
      → HotSwapCoordinator V
  told status command place name agent c = record c {
    registrations = set c.registrations place (with_status status agent);
    effects = c.effects ++ sent name command ∷ [];
  }

  update_registration-found :
      (f : AgentRegistration V → AgentRegistration V) (place : ℕ) (agent : AgentRegistration V)
      (c : HotSwapCoordinator V)
      → get_elem? c.registrations place ≡ some agent
      → update_registration f place c
        ≡ record c { registrations = set c.registrations place (f agent) }
  unfolding update_registration
  update_registration-found f place agent c e = rw (e, update_registration)

  -- How a phase ends: the coordinator, the error, and the snapshot that the session has.
  pub record Ends (p : Phase V) (c : HotSwapCoordinator V) (e : Option SwapError)
      (state : Option (AgentState V)) : Type 0 where
    pub coordinator : p.0 ≡ c
    pub error : p.2 ≡ e
    pub snapshot : p.1.state_snapshot ≡ state

module _ {V : Type 0} (w : World V) where
  pub capture_state-copied :
      (agent : AgentRegistration V) (copy : AgentState V) (c : HotSwapCoordinator V)
      (s : SwapSession V)
      → w.copy_state agent.state ≡ copied copy
      → Ends
          (capture_state w agent c s)
          c
          none
          (some (captured c.max_history_size (w.clock snapshot_taken) agent.state copy))
  unfolding capture_state captured
  capture_state-copied agent copy c s e =
      rw (e, capture_state) (record { coordinator = refl; error = refl; snapshot = refl })

  module _ (place : ℕ) (agent now : AgentRegistration V) (c : HotSwapCoordinator V)
      (s : SwapSession V) (found : get_elem? c.registrations place ≡ some now) where
    pub pause_agent-Ends :
        Ends
          (pause_agent w place agent c s)
          (told agent_paused "pause" place agent.name now c)
          (if w.pause_sent then none else some pause_not_sent)
          s.state_snapshot
    unfolding pause_agent
    pause_agent-Ends =
        let written = update_registration-found (with_status agent_paused) place now c found in
        elim (Bool-cases w.pause_sent) [
          | inl b ↦ rw b (record {
            coordinator = ap (emit (sent agent.name "pause")) written;
            error = refl;
            snapshot = refl;
          })
          | inr b ↦ rw b (record {
            coordinator = ap (emit (sent agent.name "pause")) written;
            error = refl;
            snapshot = refl;
          })
        ]

    pub resume_agent-told :
        resume_agent w place agent c ≡ told agent_active "resume" place agent.name now c
    unfolding resume_agent
    resume_agent-told =
        ap (emit (sent agent.name "resume"))
          (update_registration-found (with_status agent_active) place now c found)

  module _ (new : AgentSpec V) (c : HotSwapCoordinator V) (s : SwapSession V) where
    abbrev pub new_registration : AgentRegistration V
    new_registration =
        registration_of (w.clock state_made) (w.clock registered) (w.clock heartbeat) new

    abbrev pub with_new : HotSwapCoordinator V
    with_new = record c {
      registrations = c.registrations ++ new_registration ∷ [];
      agents = insert new.name (length c.registrations) c.agents;
      effects =
          (c.effects ++ posted "agent_registry" new.name ∷ [])
          ++ posted "agent_swaps" s.new_agent_name ∷ [];
    }

    register_agent-named :
        str_eq new.name "" ≡ false
        → register_agent (w.clock state_made) (w.clock registered) (w.clock heartbeat) new c ≡ (
          emit (posted "agent_registry" new.name) (record c {
            registrations = c.registrations ++ new_registration ∷ [];
            agents = insert new.name (length c.registrations) c.agents;
          }),
          ok tt,
        )
    unfolding register_agent
    register_agent-named n = rw n refl

    register_agent-unnamed :
        str_eq new.name "" ≡ true
        → register_agent (w.clock state_made) (w.clock registered) (w.clock heartbeat) new c
          ≡ (c, err name_required)
    unfolding register_agent
    register_agent-unnamed n = rw n refl

    pub transfer_state-Ends :
        str_eq new.name "" ≡ false → Ends (transfer_state w new c s) with_new none s.state_snapshot
    unfolding transfer_state register_agent
    transfer_state-Ends n =
        rw (register_agent-named n, transfer_state)
          (record {
            coordinator =
                ap (λ p. emit (posted "agent_swaps" s.new_agent_name) p.0) (register_agent-named n);
            error = refl;
            snapshot = refl;
          })

    pub transfer_state-unnamed :
        str_eq new.name "" ≡ true
        → Ends (transfer_state w new c s) c (some (not_registered name_required)) s.state_snapshot
    unfolding transfer_state register_agent
    transfer_state-unnamed n =
        rw (register_agent-unnamed n, transfer_state)
          (record {
            coordinator = ap (λ p. p.0) (register_agent-unnamed n);
            error = refl;
            snapshot = refl;
          })

    pub start_new_agent-Ends :
        Ends
          (start_new_agent w new c s)
          (emit (sent new.name "start") c)
          (if w.start_sent then none else some start_not_sent)
          s.state_snapshot
    unfolding start_new_agent
    start_new_agent-Ends = elim (Bool-cases w.start_sent) [
      | inl b ↦ rw b (record { coordinator = refl; error = refl; snapshot = refl })
      | inr b ↦ rw b (record { coordinator = refl; error = refl; snapshot = refl })
    ]

    pub verify_agent-Ends :
        (found : AgentRegistration V)
        → agent_of new.name c ≡ some found
        → found.status ≡ agent_active
        → Ends
            (verify_agent w new c s)
            (emit (sent new.name "ping") c)
            (if w.ping_answered then none else some not_responsive)
            s.state_snapshot
    unfolding verify_agent
    verify_agent-Ends found e active = elim (Bool-cases w.ping_answered) [
      | inl b ↦
          rw (e, verify_agent)
            (rw active (rw b (record { coordinator = refl; error = refl; snapshot = refl })))
      | inr b ↦
          rw (e, verify_agent)
            (rw active (rw b (record { coordinator = refl; error = refl; snapshot = refl })))
    ]

module _ {V : Type 0} where
  unsubscribe_all-same :
      (subs : List V) (c : HotSwapCoordinator V)
      → ((unsubscribe_all subs c).agents ≡ c.agents)
        × ((unsubscribe_all subs c).registrations ≡ c.registrations)
  unfolding unsubscribe_all
  unsubscribe_all-same [] c = (refl, refl)
  unsubscribe_all-same (s ∷ subs) c = unsubscribe_all-same subs (emit (unsubscribed s) c)

  unregister_agent-found :
      (name : String) (agent : AgentRegistration V) (c : HotSwapCoordinator V)
      → agent_of name c ≡ some agent
      → ((unregister_agent name c).0.agents ≡ erase name c.agents)
        × ((unregister_agent name c).0.registrations ≡ c.registrations)
        × ((unregister_agent name c).1 ≡ ok tt)
  unfolding unregister_agent
  unregister_agent-found name agent c e =
      let (a, r) = unsubscribe_all-same agent.subscriptions c in
      rw (e, unregister_agent) (ap (erase name) a, r, refl)

  -- The end of a swap: the old agent's status is written, and its name is freed.
  pub finish-agents :
      (w : World V) (place : ℕ) (agent now found : AgentRegistration V) (c : HotSwapCoordinator V)
      (s : SwapSession V)
      → get_elem? c.registrations place ≡ some now
      → agent_of agent.name (told agent_terminating "terminate" place agent.name now c) ≡ some found
      → let (c', s', e) = finish w place agent c s in
        (c'.agents ≡ erase agent.name c.agents)
        × (c'.registrations ≡ set c.registrations place (with_status agent_terminating now))
        × (e ≡ none)
        × (s'.status ≡ swap_completed)
  unfolding finish
  finish-agents w place agent now found c s there e =
      let written : emit (sent agent.name "terminate")
            (update_registration (with_status agent_terminating) place c)
          ≡ told agent_terminating "terminate" place agent.name now c =
        ap (emit (sent agent.name "terminate"))
          (update_registration-found (with_status agent_terminating) place now c there) in
      let (a, r, _) =
        unregister_agent-found agent.name found
          (told agent_terminating "terminate" place agent.name now c) e in
      (
        ap (λ d. (unregister_agent agent.name d).0.agents) written ∙ a,
        ap (λ d. (unregister_agent agent.name d).0.registrations) written ∙ r,
        refl,
        refl,
      )

-- ===== src/Orchestrator/HotSwap/Rollback.antt =====
-- Swaps that fail, and a swap of an agent for one of the same name (internal/orchestrator/hotswap.go,
-- SwapAgent).
use cryptofunk.Prelude.{
  ℕ, ◌≡◌, ◌⊎◌, refl, ap, ◌∙◌, String, true, false, Option, some, str_eq, if◌then◌else◌, get_elem?,
  set,
}
use cryptofunk.Prelude.Dict.{Dict}
use cryptofunk.Orchestrator.HotSwap.{
  agent_active, agent_paused, AgentState, AgentRegistration, SwapSession, swap_failed, SwapError,
  pause_not_sent, HotSwapCoordinator, registration_of, agent_of, with_status,
}
use cryptofunk.Orchestrator.HotSwap.Steps.{copied, World, state_made, registered, heartbeat}
use cryptofunk.Orchestrator.HotSwap.Swap.{
  successor, abandon, roll_back, capture_state, pause_agent, swap_phases, new_session, swap_agent,
}
use cryptofunk.Orchestrator.HotSwap.View.{IsNamed}
use cryptofunk.Orchestrator.HotSwap.Phases.{
  told, capture_state-copied, pause_agent-Ends, resume_agent-told, new_registration,
}
use cryptofunk.Orchestrator.HotSwap.Outcome.{
  moved, paused, and_then-none, and_then-some, swap_phases-replace, replace-RollsBack,
}
use cryptofunk.Orchestrator.HotSwap.Registry.{
  IsNamed-paused, view-paused, found2, IsNamed-both, view-both, agent_of-place, swap_agent-phases,
  IsNamed-same, agent_of-same,
}

module _ {V : Type 0} (w : World V) (agent now : AgentRegistration V) (place : ℕ)
    (c : HotSwapCoordinator V) (s : SwapSession V) (e : SwapError) where
  roll_back-told :
      get_elem? c.registrations place ≡ some now
      → let (c', s', error) = roll_back w place agent c s e in
        (c' ≡ told agent_active "resume" place agent.name now c)
        × (error ≡ some e)
        × (s'.status ≡ swap_failed)
  unfolding roll_back
  roll_back-told found = (resume_agent-told w place agent now c s found, refl, refl)

-- In a registry whose names lead to agents of that name, take a swap of a registered agent for one
-- of another name, which is not empty; its state can be copied and the pause is sent, but the start
-- is not sent or the ping is not answered. The swap reports an error, and the old name leads to the
-- old agent, active. The new name leads to the new agent, which is active too; every other name
-- leads where it did. The names still lead to agents of that name.
pub swap_agent-rolls_back :
    {V : Type 0} (w : World V) (id new_name : String) (config : Option (Dict V))
    (agent : AgentRegistration V) (copy : AgentState V) (c : HotSwapCoordinator V)
    → IsNamed c.registrations c.agents
    → agent_of agent.name c ≡ some agent
    → str_eq new_name agent.name ≡ false
    → str_eq new_name "" ≡ false
    → w.copy_state agent.state ≡ copied copy
    → w.pause_sent ≡ true
    → (w.start_sent ≡ false) ⊎ (w.ping_answered ≡ false)
    → let (c', session, error) = swap_agent w id agent.name new_name config c in
      let new = successor new_name config agent (some (moved w agent c copy)) in
      ((e : SwapError) × (error ≡ some e))
      × IsNamed c'.registrations c'.agents
      × ((key : String)
          → agent_of key c' ≡ (
              if str_eq agent.name key
              then some (with_status agent_active agent)
              else if str_eq new_name key
              then some (
                  registration_of (w.clock state_made) (w.clock registered) (w.clock heartbeat) new)
              else agent_of key c))
unfolding agent_of registration_of
swap_agent-rolls_back w id new_name config agent copy c named is_agent differ has_name copies
      paused_ fails =
    let (place, leads, found) = agent_of-place agent.name agent c is_agent in
    let s0 = new_session w id agent.name new_name in
    let new = successor new_name config agent (some (moved w agent c copy)) in
    let c1 = paused agent c place in
    let (s1, to_replace) =
      swap_phases-replace w agent c place copy leads found copies new_name config s0 paused_ in
    let fresh = new_registration w new c1 s1 in
    let named1 = IsNamed-paused agent fresh c.registrations c.agents named place leads found in
    let (d, s2, e, to_end, stored, mapped) =
      replace-RollsBack w agent place new c1 s1 named1 has_name fails in
    let is_found = found2 agent fresh c.registrations c.agents named place leads found in
    let resumed =
      roll_back-told w agent (with_status agent_paused agent) place d s2 e
        (ap (λ r. get_elem? r place) stored ∙ is_found) in
    let whole = swap_agent-phases w id new_name config agent place c leads found in
    let phases = to_replace ∙ to_end in
    let c' = (swap_agent w id agent.name new_name config c).0 in
    let stored' =
      ap (λ r. r.0.registrations) whole
      ∙ ap (λ p. p.0.registrations) phases
      ∙ ap (λ x. x.registrations) resumed.0
      ∙ ap (λ r. set r place (with_status agent_active agent)) stored in
    let mapped' =
      ap (λ r. r.0.agents) whole
      ∙ ap (λ p. p.0.agents) phases
      ∙ ap (λ x. x.agents) resumed.0
      ∙ mapped in
    (
      (e, ap (λ r. r.2) whole ∙ ap (λ p. p.2) phases ∙ resumed.1),
      IsNamed-same c' _ _ stored' mapped' (
          IsNamed-both agent fresh c.registrations c.agents named place leads found differ
            agent_active),
      λ key.
          agent_of-same c' _ _ stored' mapped' key
          ∙ view-both agent fresh c.registrations c.agents named place leads found differ
              agent_active key,
    )

swap_phases-abandon :
    {V : Type 0} (w : World V) (agent : AgentRegistration V) (place : ℕ) (c : HotSwapCoordinator V)
    (s : SwapSession V) (new_name : String) (config : Option (Dict V)) (copy : AgentState V)
    → get_elem? c.registrations place ≡ some agent
    → w.copy_state agent.state ≡ copied copy
    → w.pause_sent ≡ false
    → (s' : SwapSession V) × (swap_phases w place agent new_name config c s
        ≡ (paused agent c place, s', some pause_not_sent))
unfolding swap_phases abandon
swap_phases-abandon w agent place c s new_name config copy found copies silent =
    let a = capture_state-copied w agent copy c s copies in
    let s1 = (capture_state w agent c s).1 in
    let b = pause_agent-Ends w place agent agent c s1 found in
    let p = pause_agent w place agent c s1 in
    (
      (abandon w (paused agent c place) p.1 pause_not_sent).1,
      and_then-none (capture_state w agent c s) c _ _ a.coordinator a.error
          ∙ and_then-some p (paused agent c place) pause_not_sent _ _ b.coordinator
              (b.error ∙ rw silent refl),
    )

-- In a registry whose names lead to agents of that name, if the state of the old agent can be
-- copied but its pause is not sent, the swap reports that, and nothing is rolled back: the old name
-- leads to the old agent, paused, and every other name leads where it did.
pub swap_agent-stays_paused :
    {V : Type 0} (w : World V) (id new_name : String) (config : Option (Dict V))
    (agent : AgentRegistration V) (copy : AgentState V) (c : HotSwapCoordinator V)
    → IsNamed c.registrations c.agents
    → agent_of agent.name c ≡ some agent
    → w.copy_state agent.state ≡ copied copy
    → w.pause_sent ≡ false
    → let (c', session, error) = swap_agent w id agent.name new_name config c in
      (error ≡ some pause_not_sent)
      × ((key : String)
          → agent_of key c' ≡ (
              if str_eq agent.name key
              then some (with_status agent_paused agent)
              else agent_of key c))
unfolding agent_of
swap_agent-stays_paused w id new_name config agent copy c named is_agent copies silent =
    let (place, leads, found) = agent_of-place agent.name agent c is_agent in
    let s0 = new_session w id agent.name new_name in
    let (s1, phases) =
      swap_phases-abandon w agent place c s0 new_name config copy found copies silent in
    let whole = swap_agent-phases w id new_name config agent place c leads found in
    let c' = (swap_agent w id agent.name new_name config c).0 in
    let stored = ap (λ r. r.0.registrations) whole ∙ ap (λ p. p.0.registrations) phases in
    let mapped = ap (λ r. r.0.agents) whole ∙ ap (λ p. p.0.agents) phases in
    (
      ap (λ r. r.2) whole ∙ ap (λ p. p.2) phases,
      λ key.
          agent_of-same c' _ _ stored mapped key
          ∙ view-paused agent agent c.registrations c.agents named place leads found key,
    )

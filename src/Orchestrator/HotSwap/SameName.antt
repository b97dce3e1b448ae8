-- ===== src/Orchestrator/HotSwap/SameName.antt =====
-- A swap of an agent for one of the same name (internal/orchestrator/hotswap.go, SwapAgent).
use cryptofunk.Prelude.{
  ℕ, ◌≡◌, ◌≢◌, refl, sym, ap, ◌∙◌, inl, inr, String, true, false, Option, none, some, List, [], ◌∷◌,
  ◌++◌, str_eq, eq_iff, if◌then◌else◌, arith, Bool-cases, length, get_elem?, set, get_elem?-lt,
  length-set,
}
use cryptofunk.Prelude.Dict.{Dict, lookup, insert, lookup-insert, lookup-erase}
use cryptofunk.Orchestrator.HotSwap.{
  agent_paused, agent_terminating, AgentState, AgentRegistration, HotSwapCoordinator,
  registration_of, at_place, agent_of, with_status, emit, sent,
}
use cryptofunk.Orchestrator.HotSwap.Steps.{copied, World}
use cryptofunk.Orchestrator.HotSwap.Swap.{successor, new_session, swap_agent}
use cryptofunk.Orchestrator.HotSwap.View.{view, IsNamed, view-insert, view-set_other}
use cryptofunk.Orchestrator.HotSwap.Phases.{new_registration, with_new, finish-agents}
use cryptofunk.Orchestrator.HotSwap.Outcome.{moved, paused, swap_phases-replace, replace-finish}
use cryptofunk.Orchestrator.HotSwap.Registry.{
  IsNamed-paused, view-paused, found2, named2, agent_of-place, swap_agent-phases, agent_of-same,
}

module _ {V : Type 0} (agent new : AgentRegistration V) (regs : List (AgentRegistration V))
    (agents : Dict ℕ) (named : IsNamed regs agents) (place : ℕ)
    (leads : lookup agent.name agents ≡ some place) (found : get_elem? regs place ≡ some agent)
    (same : new.name ≡ agent.name) where
  abbrev after : List (AgentRegistration V)
  after = set regs place (with_status agent_paused agent)

  abbrev names : Dict ℕ
  names = insert new.name (length after) agents

  -- No name leads to the old agent any more.
  abandoned : (key : String) → lookup key names ≢ some place
  abandoned key l = elim (Bool-cases (str_eq new.name key)) [
    | inl e ↦
        let here : some (length after) ≡ some place =
          sym (lookup-insert new.name key (length after) agents ∙ rw e refl) ∙ l in
        let p : length after ≡ place = cc in
        omega (
          arith,
          p,
          length-set regs place (with_status agent_paused agent),
          get_elem?-lt regs place found,
        )
    | inr e ↦
        let there : lookup key agents ≡ some place =
          sym (lookup-insert new.name key (length after) agents ∙ rw e refl) ∙ l in
        let (who, at_there, n) = named key place there in
        let is_agent : some agent ≡ some who = sym found ∙ at_there in
        let names_same : new.name ≡ key = cc (is_agent, n, same) in
        let yes_ = (eq_iff new.name key).1 names_same in cc
  ]

  view-replaced :
      (written : AgentRegistration V) (key : String)
      → view (set (after ++ new ∷ []) place written) names key
        ≡ (if str_eq new.name key then some new else view regs agents key)
  view-replaced written key =
      view-set_other (after ++ new ∷ []) names
        (named2 agent new regs agents named place leads found) place
        (with_status agent_paused agent) written
        (found2 agent new regs agents named place leads found) key (abandoned key)
      ∙ view-insert after agents (IsNamed-paused agent new regs agents named place leads found) new
          new.name key
      ∙ elim (Bool-cases (str_eq new.name key)) [
        | inl e ↦ rw e refl
        | inr e ↦
            let apart : str_eq agent.name key ≡ false = rw (← same) e in
            rw e (view-paused agent new regs agents named place leads found key ∙ rw apart refl)
      ]

-- In a registry whose names lead to agents of that name, a swap of a registered agent for one of
-- the same name, which is not empty, whose state can be copied, with the pause and the start sent
-- and the ping answered, reports no error and leaves nobody under that name. Every other name leads
-- where it did.
pub swap_agent-same_name :
    {V : Type 0} (w : World V) (id : String) (config : Option (Dict V))
    (agent : AgentRegistration V) (copy : AgentState V) (c : HotSwapCoordinator V)
    → IsNamed c.registrations c.agents
    → agent_of agent.name c ≡ some agent
    → str_eq agent.name "" ≡ false
    → w.copy_state agent.state ≡ copied copy
    → w.pause_sent ≡ true
    → w.start_sent ≡ true
    → w.ping_answered ≡ true
    → let (c', session, e) = swap_agent w id agent.name agent.name config c in
      (e ≡ none)
      × ((key : String)
          → agent_of key c' ≡ (if str_eq agent.name key then none else agent_of key c))
unfolding agent_of registration_of
swap_agent-same_name w id config agent copy c named is_agent has_name copies paused_ started
      answered =
    let (place, leads, found) = agent_of-place agent.name agent c is_agent in
    let s0 = new_session w id agent.name agent.name in
    let new = successor agent.name config agent (some (moved w agent c copy)) in
    let c1 = paused agent c place in
    let (s1, to_replace) =
      swap_phases-replace w agent c place copy leads found copies agent.name config s0 paused_ in
    let fresh = new_registration w new c1 s1 in
    let named1 = IsNamed-paused agent fresh c.registrations c.agents named place leads found in
    let (s2, to_finish) = replace-finish w agent place new c1 s1 named1 has_name started answered in
    let c4 =
      emit (sent agent.name "ping") (emit (sent agent.name "start") (with_new w new c1 s1)) in
    let replaced =
      view-replaced agent fresh c.registrations c.agents named place leads found refl
        (with_status agent_terminating agent) in
    let is_found = found2 agent fresh c.registrations c.agents named place leads found in
    let (mapped, stored, done, _) =
      finish-agents w place agent (with_status agent_paused agent) fresh c4 s2 is_found
        (replaced agent.name ∙ rw ((eq_iff agent.name agent.name).1 refl) refl) in
    let whole = swap_agent-phases w id agent.name config agent place c leads found in
    let phases = to_replace ∙ to_finish in
    let c' = (swap_agent w id agent.name agent.name config c).0 in
    let stored' = ap (λ r. r.0.registrations) whole ∙ ap (λ p. p.0.registrations) phases ∙ stored in
    let mapped' = ap (λ r. r.0.agents) whole ∙ ap (λ p. p.0.agents) phases ∙ mapped in
    let named2' = named2 agent fresh c.registrations c.agents named place leads found in
    (
      ap (λ r. r.2) whole ∙ ap (λ p. p.2) phases ∙ done,
      λ key.
          agent_of-same c' _ _ stored' mapped' key
          ∙ ap (at_place _) (lookup-erase agent.name key _)
          ∙ elim (Bool-cases (str_eq agent.name key)) [
            | inl e ↦ rw e refl
            | inr e ↦ rw e (replaced key ∙ rw e refl)
          ],
    )

-- ===== src/Orchestrator/HotSwap/Registry.antt =====
-- Whom the names of the registry lead to after a swap (internal/orchestrator/hotswap.go).
use cryptofunk.Prelude.{
  ℕ, ◌≡◌, refl, sym, ap, subst, ◌∙◌, inl, inr, String, true, false, Option, none, some, List, [],
  ◌∷◌, ◌++◌, str_eq, eq_iff, if◌then◌else◌, Bool-cases, Option-cases, length, get_elem?, set,
  get_elem?-append_left, get_elem?-set_self,
}
use cryptofunk.Prelude.Dict.{Dict, lookup, insert, lookup-insert}
use cryptofunk.Orchestrator.HotSwap.{
  AgentStatus, agent_paused, agent_terminating, AgentState, AgentRegistration, HotSwapCoordinator,
  at_place, registration_of, agent_of, with_status, emit, sent,
}
use cryptofunk.Orchestrator.HotSwap.Steps.{copied, World, state_made, registered, heartbeat}
use cryptofunk.Orchestrator.HotSwap.Swap.{
  successor, swap_phases, new_session, with_session, swap_agent,
}
use cryptofunk.Orchestrator.HotSwap.View.{
  view, IsNamed, view-insert, IsNamed-insert, view-erase, IsNamed-erase, view-set, IsNamed-set,
}
use cryptofunk.Orchestrator.HotSwap.Phases.{new_registration, with_new, finish-agents}
use cryptofunk.Orchestrator.HotSwap.Outcome.{moved, paused, swap_phases-replace, replace-finish}

module _ {V : Type 0} (agent new : AgentRegistration V) (regs : List (AgentRegistration V))
    (agents : Dict ℕ) (named : IsNamed regs agents) (place : ℕ)
    (leads : lookup agent.name agents ≡ some place)
    (found : get_elem? regs place ≡ some agent) where
  abbrev stopped : AgentRegistration V
  stopped = with_status agent_paused agent

  abbrev regs1 : List (AgentRegistration V)
  regs1 = set regs place stopped

  pub IsNamed-paused : IsNamed regs1 agents
  IsNamed-paused = IsNamed-set regs agents named place agent stopped found agent.name leads refl

  pub view-paused :
      (key : String)
      → view regs1 agents key
        ≡ (if str_eq agent.name key then some stopped else view regs agents key)
  view-paused = view-set regs agents named place agent stopped found agent.name leads refl

  abbrev pub regs2 : List (AgentRegistration V)
  regs2 = regs1 ++ new ∷ []

  abbrev pub agents2 : Dict ℕ
  agents2 = insert new.name (length regs1) agents

  pub named2 : IsNamed regs2 agents2
  named2 = IsNamed-insert regs1 agents IsNamed-paused new

  pub found2 : get_elem? regs2 place ≡ some stopped
  found2 =
      get_elem?-append_left regs1 (new ∷ []) place (get_elem?-set_self regs place stopped found)

  module _ (differ : str_eq new.name agent.name ≡ false) (status : AgentStatus) where
    leads2 : lookup agent.name agents2 ≡ some place
    leads2 = lookup-insert new.name agent.name (length regs1) agents ∙ rw differ leads

    abbrev written : AgentRegistration V
    written = with_status status agent

    pub IsNamed-both : IsNamed (set regs2 place written) agents2
    IsNamed-both =
        IsNamed-set regs2 agents2 named2 place stopped written found2 agent.name leads2 refl

    pub view-both :
        (key : String)
        → view (set regs2 place written) agents2 key ≡ (
            if str_eq agent.name key
            then some written
            else if str_eq new.name key
            then some new
            else view regs agents key)
    view-both key =
        view-set regs2 agents2 named2 place stopped written found2 agent.name leads2 refl key
        ∙ elim (Bool-cases (str_eq agent.name key)) [
          | inl e ↦ rw e refl
          | inr e ↦ rw e (
              view-insert regs1 agents IsNamed-paused new new.name key
              ∙ ap (λ o. if str_eq new.name key then some new else o) (view-paused key ∙ rw e refl))
        ]

module _ {V : Type 0} where
  pub agent_of-place :
      (name : String) (agent : AgentRegistration V) (c : HotSwapCoordinator V)
      → agent_of name c ≡ some agent
      → (place : ℕ) × (lookup name c.agents ≡ some place)
        × (get_elem? c.registrations place ≡ some agent)
  unfolding agent_of
  agent_of-place name agent c e = elim (Option-cases (lookup name c.agents)) [
    | inl l ↦ let absent : none ≡ some agent = sym (ap (at_place c.registrations) l) ∙ e in cc
    | inr (place, l) ↦ (place, l, sym (ap (at_place c.registrations) l) ∙ e)
  ]

module _ {V : Type 0} (w : World V) (id new_name : String) (config : Option (Dict V)) where
  pub swap_agent-phases :
      (agent : AgentRegistration V) (place : ℕ) (c : HotSwapCoordinator V)
      → lookup agent.name c.agents ≡ some place
      → get_elem? c.registrations place ≡ some agent
      → swap_agent w id agent.name new_name config c
        ≡ with_session id
            (swap_phases w place agent new_name config c (new_session w id agent.name new_name))
  unfolding swap_agent
  swap_agent-phases agent place c l f = rw (l, swap_agent) (rw f refl)

-- A registry whose store and map are known.
module _ {V : Type 0} (c : HotSwapCoordinator V) (regs : List (AgentRegistration V))
    (agents : Dict ℕ) (stored : c.registrations ≡ regs) (mapped : c.agents ≡ agents) where
  pub IsNamed-same : IsNamed regs agents → IsNamed c.registrations c.agents
  IsNamed-same h =
      subst (λ r. IsNamed r c.agents) (sym stored) (subst (IsNamed regs) (sym mapped) h)

  pub agent_of-same : (key : String) → agent_of key c ≡ view regs agents key
  unfolding agent_of
  agent_of-same key = λ i. view (stored i) (mapped i) key

-- In a registry whose names lead to agents of that name, take a swap of a registered agent for one
-- of another name, which is not empty; its state can be copied, the pause and the start are sent,
-- and the ping is answered. The swap reports no error, and afterwards the old name leads to nobody,
-- the new name to an active agent of the old one's type and capabilities with the captured state,
-- and every other name where it did. The names still lead to agents of that name.
pub swap_agent-replaces :
    {V : Type 0} (w : World V) (id new_name : String) (config : Option (Dict V))
    (agent : AgentRegistration V) (copy : AgentState V) (c : HotSwapCoordinator V)
    → IsNamed c.registrations c.agents
    → agent_of agent.name c ≡ some agent
    → str_eq new_name agent.name ≡ false
    → str_eq new_name "" ≡ false
    → w.copy_state agent.state ≡ copied copy
    → w.pause_sent ≡ true
    → w.start_sent ≡ true
    → w.ping_answered ≡ true
    → let (c', session, e) = swap_agent w id agent.name new_name config c in
      let new = successor new_name config agent (some (moved w agent c copy)) in
      (e ≡ none)
      × IsNamed c'.registrations c'.agents
      × ((key : String)
          → agent_of key c' ≡ (
              if str_eq agent.name key
              then none
              else if str_eq new_name key
              then some (
                  registration_of (w.clock state_made) (w.clock registered) (w.clock heartbeat) new)
              else agent_of key c))
unfolding agent_of registration_of
swap_agent-replaces w id new_name config agent copy c named is_agent differ has_name copies paused_
      started answered =
    let (place, leads, found) = agent_of-place agent.name agent c is_agent in
    let s0 = new_session w id agent.name new_name in
    let new = successor new_name config agent (some (moved w agent c copy)) in
    let c1 = paused agent c place in
    let (s1, to_replace) =
      swap_phases-replace w agent c place copy leads found copies new_name config s0 paused_ in
    let fresh = new_registration w new c1 s1 in
    let named1 = IsNamed-paused agent fresh c.registrations c.agents named place leads found in
    let (s2, to_finish) = replace-finish w agent place new c1 s1 named1 has_name started answered in
    let c4 = emit (sent new_name "ping") (emit (sent new_name "start") (with_new w new c1 s1)) in
    let both = view-both agent fresh c.registrations c.agents named place leads found differ in
    let is_found = found2 agent fresh c.registrations c.agents named place leads found in
    let named2 =
      IsNamed-both agent fresh c.registrations c.agents named place leads found differ
        agent_terminating in
    let (mapped, stored, done, _) =
      finish-agents w place agent (with_status agent_paused agent)
        (with_status agent_terminating agent) c4 s2 is_found
        (both agent_terminating agent.name ∙ rw ((eq_iff agent.name agent.name).1 refl) refl) in
    let whole = swap_agent-phases w id new_name config agent place c leads found in
    let phases = to_replace ∙ to_finish in
    let c' = (swap_agent w id agent.name new_name config c).0 in
    let stored' = ap (λ r. r.0.registrations) whole ∙ ap (λ p. p.0.registrations) phases ∙ stored in
    let mapped' = ap (λ r. r.0.agents) whole ∙ ap (λ p. p.0.agents) phases ∙ mapped in
    (
      ap (λ r. r.2) whole ∙ ap (λ p. p.2) phases ∙ done,
      IsNamed-same c' _ _ stored' mapped' (IsNamed-erase _ _ named2 agent.name),
      λ key.
          agent_of-same c' _ _ stored' mapped' key
          ∙ view-erase _ _ named2 agent.name key
          ∙ elim (Bool-cases (str_eq agent.name key)) [
            | inl e ↦ rw e refl
            | inr e ↦ rw e (both agent_terminating key ∙ rw e refl)
          ],
    )

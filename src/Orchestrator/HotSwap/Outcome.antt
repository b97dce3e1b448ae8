-- ===== src/Orchestrator/HotSwap/Outcome.antt =====
-- What a swap (internal/orchestrator/hotswap.go, SwapAgent) leaves in the registry.
use cryptofunk.Prelude.{
  ℕ, ◌≡◌, ◌⊎◌, refl, ◌∙◌, inl, inr, String, true, false, Option, none, some, str_eq, eq_iff, arith,
  Bool-cases, get_elem?,
}
use cryptofunk.Prelude.Dict.{Dict, lookup}
use cryptofunk.Orchestrator.HotSwap.{
  agent_paused, AgentState, AgentRegistration, AgentSpec, SwapError, start_not_sent, not_responsive,
  SwapSession, HotSwapCoordinator, registration_of, agent_of, emit, sent,
}
use cryptofunk.Orchestrator.HotSwap.Steps.{copied, World, snapshot_taken, captured}
use cryptofunk.Orchestrator.HotSwap.Swap.{
  Phase, successor, and_then, capture_state, pause_agent, transfer_state, start_new_agent,
  verify_agent, roll_back, finish, replace, swap_phases,
}
use cryptofunk.Orchestrator.HotSwap.View.{IsNamed, view-insert}
use cryptofunk.Orchestrator.HotSwap.Phases.{
  told, capture_state-copied, pause_agent-Ends, new_registration, with_new, transfer_state-Ends,
  start_new_agent-Ends, verify_agent-Ends,
}

module _ {V : Type 0} where
  pub and_then-none :
      (p : Phase V) (c : HotSwapCoordinator V)
      (f : HotSwapCoordinator V → SwapSession V → SwapError → Phase V)
      (g : HotSwapCoordinator V → SwapSession V → Phase V)
      → p.0 ≡ c
      → p.2 ≡ none
      → and_then p f g ≡ g c p.1
  and_then-none p c f g a b = λ i. and_then (a i, p.1, b i) f g

  pub and_then-some :
      (p : Phase V) (c : HotSwapCoordinator V) (e : SwapError)
      (f : HotSwapCoordinator V → SwapSession V → SwapError → Phase V)
      (g : HotSwapCoordinator V → SwapSession V → Phase V)
      → p.0 ≡ c
      → p.2 ≡ some e
      → and_then p f g ≡ f c p.1 e
  and_then-some p c e f g a b = λ i. and_then (a i, p.1, b i) f g

-- The state that is moved to the new agent.
abbrev pub moved :
    {V : Type 0}
    → World V
    → AgentRegistration V
    → HotSwapCoordinator V
    → AgentState V
    → AgentState V
moved w agent c copy = captured c.max_history_size (w.clock snapshot_taken) agent.state copy

-- The coordinator when the old agent is paused.
abbrev pub paused :
    {V : Type 0} → AgentRegistration V → HotSwapCoordinator V → ℕ → HotSwapCoordinator V
paused agent c place = told agent_paused "pause" place agent.name agent c

-- How a swap ends that fails after the new agent is registered.
abbrev pub RollsBack :
    {V : Type 0}
    → World V
    → AgentRegistration V
    → ℕ
    → AgentSpec V
    → HotSwapCoordinator V
    → SwapSession V
    → Phase V
    → Type 0
RollsBack {V} w agent place new c s p =
    (d : HotSwapCoordinator V) × (s' : SwapSession V) × (e : SwapError) × (p
      ≡ roll_back w place agent d s' e)
    × (d.registrations ≡ (with_new w new c s).registrations)
    × (d.agents ≡ (with_new w new c s).agents)

module _ {V : Type 0} (w : World V) (agent : AgentRegistration V) (c : HotSwapCoordinator V)
    (place : ℕ) (copy : AgentState V) (leads : lookup agent.name c.agents ≡ some place)
    (found : get_elem? c.registrations place ≡ some agent)
    (copies : w.copy_state agent.state ≡ copied copy) where
  pub swap_phases-replace :
      (new_name : String) (config : Option (Dict V)) (s : SwapSession V)
      → w.pause_sent ≡ true
      → (s' : SwapSession V) × (swap_phases w place agent new_name config c s
          ≡ replace w place agent
              (successor new_name config agent (some (moved w agent c copy)))
              (paused agent c place)
              s')
  unfolding swap_phases
  swap_phases-replace new_name config s sends =
      let a = capture_state-copied w agent copy c s copies in
      let s1 = (capture_state w agent c s).1 in
      let b = pause_agent-Ends w place agent agent c s1 found in
      let p = pause_agent w place agent c s1 in
      (
        p.1,
        and_then-none (capture_state w agent c s) c _ _ a.coordinator a.error
            ∙ and_then-none p (paused agent c place) _ _ b.coordinator (b.error ∙ rw sends refl)
            ∙ (λ i.
                replace w place agent
                  (successor new_name config agent ((b.snapshot ∙ a.snapshot) i))
                  (paused agent c place) p.1),
      )

module _ {V : Type 0} (w : World V) (agent : AgentRegistration V) (place : ℕ) (new : AgentSpec V)
    (c : HotSwapCoordinator V) (s : SwapSession V) (named : IsNamed c.registrations c.agents)
    (has_name : str_eq new.name "" ≡ false) where
  abbrev joined : HotSwapCoordinator V
  joined = with_new w new c s

  abbrev started : HotSwapCoordinator V
  started = emit (sent new.name "start") joined

  agent_of-started : agent_of new.name started ≡ some (new_registration w new c s)
  unfolding agent_of
  agent_of-started =
      view-insert c.registrations c.agents named (new_registration w new c s) new.name new.name
      ∙ rw ((eq_iff new.name new.name).1 refl) refl

  replace-started :
      w.start_sent ≡ true
      → (s' : SwapSession V) × (replace w place agent new c s
          ≡ and_then
              (verify_agent w new started s')
              (roll_back w place agent)
              (finish w place agent))
  unfolding replace
  replace-started sends =
      let t = transfer_state-Ends w new c s has_name in
      let s1 = (transfer_state w new c s).1 in
      let b = start_new_agent-Ends w new joined s1 in
      (
        (start_new_agent w new joined s1).1,
        and_then-none (transfer_state w new c s) joined _ _ t.coordinator t.error
            ∙ and_then-none (start_new_agent w new joined s1) started _ _ b.coordinator
                (b.error ∙ rw sends refl),
      )

  pub replace-finish :
      w.start_sent ≡ true
      → w.ping_answered ≡ true
      → (s' : SwapSession V) × (replace w place agent new c s
          ≡ finish w place agent (emit (sent new.name "ping") started) s')
  replace-finish sends answers =
      let (s2, e) = replace-started sends in
      let v =
        verify_agent-Ends w new started s2 (new_registration w new c s) agent_of-started
          (unfold registration_of in refl) in
      (
        (verify_agent w new started s2).1,
        e
            ∙ and_then-none (verify_agent w new started s2) _ _ _ v.coordinator
                (v.error ∙ rw answers refl),
      )

  pub replace-RollsBack :
      (w.start_sent ≡ false) ⊎ (w.ping_answered ≡ false)
      → RollsBack w agent place new c s (replace w place agent new c s)
  unfolding replace
  replace-RollsBack h = elim (Bool-cases w.start_sent) [
    | inr fails ↦
        let t = transfer_state-Ends w new c s has_name in
        let s1 = (transfer_state w new c s).1 in
        let b = start_new_agent-Ends w new joined s1 in
        (
          started,
          (start_new_agent w new joined s1).1,
          start_not_sent,
          and_then-none (transfer_state w new c s) joined _ _ t.coordinator t.error
              ∙ and_then-some (start_new_agent w new joined s1) started start_not_sent _ _
                  b.coordinator (b.error ∙ rw fails refl),
          refl,
          refl,
        )
    | inl sends ↦
        let silent : w.ping_answered ≡ false = ground (arith, h, sends) in
        let (s2, e) = replace-started sends in
        let v =
          verify_agent-Ends w new started s2 (new_registration w new c s) agent_of-started
            (unfold registration_of in refl) in
        (
          emit (sent new.name "ping") started,
          (verify_agent w new started s2).1,
          not_responsive,
          e
              ∙ and_then-some (verify_agent w new started s2) _ not_responsive _ _ v.coordinator
                  (v.error ∙ rw silent refl),
          refl,
          refl,
        )
  ]

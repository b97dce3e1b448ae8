-- ===== src/Orchestrator/HotSwap/Invariant.antt =====
-- The registry under all operations of internal/orchestrator/hotswap.go, on all their branches.
use cryptofunk.Prelude.{
  ◌⊎◌, Result, ok, err, ℕ, ◌≡◌, refl, sym, ap, subst, ◌∙◌, inl, inr, String, Option, none, some,
  List, [], ◌∷◌, str_eq, Bool-cases, Option-cases, get_elem?, set, ℕ_discrete, get_elem?-set_self,
  get_elem?-set_ne,
}
use cryptofunk.Prelude.Dict.{Dict, lookup}
use cryptofunk.Orchestrator.HotSwap.{
  agent_active, agent_paused, agent_terminating, with_status, sent, AgentState, AgentRegistration,
  AgentSpec, SwapSession, SwapError, HotSwapCoordinator, unsubscribed, emit, registration_of,
  register_agent, agent_of, unsubscribe_all, unregister_agent, update_registration, update_agent,
  update_agent_heartbeat, update_agent_state,
}
use cryptofunk.Orchestrator.HotSwap.Steps.{
  Copied, unserializable, undeserializable, copied, state_made, registered, heartbeat, World,
}
use cryptofunk.Orchestrator.HotSwap.Swap.{
  is_active, Phase, and_then, abandon, roll_back, resume_agent, capture_state, pause_agent,
  transfer_state, start_new_agent, verify_agent, terminate_agent, finish, replace, successor,
  swap_phases, new_session, swap_agent,
}
use cryptofunk.Orchestrator.HotSwap.View.{IsNamed, IsNamed-insert, IsNamed-erase}

module _ {V : Type 0} where
  -- Every name of the registry leads to a registration of that name.
  abbrev pub IsNamedRegistry : HotSwapCoordinator V → Type 0
  IsNamedRegistry c = IsNamed c.registrations c.agents

  update_registration-IsNamed :
      (f : AgentRegistration V → AgentRegistration V) (place : ℕ) (c : HotSwapCoordinator V)
      → ((a : AgentRegistration V) → (f a).name ≡ a.name)
      → IsNamedRegistry c
      → IsNamedRegistry (update_registration f place c)
  unfolding update_registration
  update_registration-IsNamed f place c same h =
      elim (Option-cases (get_elem? c.registrations place)) [
        | inl e ↦ rw (e, update_registration) h
        | inr (agent, e) ↦
            rw (e, update_registration)
              (λ name q l.
                let (found, there, n) = h name q l in
                elim (ℕ_discrete place q) [
                  | yes p ↦
                      let is_agent : some agent ≡ some found =
                        sym e ∙ (ap (get_elem? c.registrations) p ∙ there) in
                      (
                        f agent,
                        subst
                            (λ (x : ℕ).
                              get_elem? (set c.registrations place (f agent)) x ≡ some (f agent))
                            p (get_elem?-set_self c.registrations place (f agent) e),
                        same agent ∙ cc (is_agent, n),
                      )
                  | no n' ↦
                      (found, get_elem?-set_ne c.registrations place q (f agent) n' ∙ there, n)
                ])
      ]

  pub register_agent-IsNamed :
      (t u v : ℕ) (agent : AgentSpec V) (c : HotSwapCoordinator V)
      → IsNamedRegistry c
      → IsNamedRegistry (register_agent t u v agent c).0
  unfolding register_agent
  register_agent-IsNamed t u v agent c h = elim (Bool-cases (str_eq agent.name "")) [
    | inl e ↦ rw e h
    | inr e ↦ rw e (IsNamed-insert c.registrations c.agents h (registration_of t u v agent))
  ]

  unsubscribe_all-IsNamed :
      (subs : List V) (c : HotSwapCoordinator V)
      → IsNamedRegistry c
      → IsNamedRegistry (unsubscribe_all subs c)
  unfolding unsubscribe_all
  unsubscribe_all-IsNamed [] c h = h
  unsubscribe_all-IsNamed (s ∷ subs) c h = unsubscribe_all-IsNamed subs (emit (unsubscribed s) c) h

  pub unregister_agent-IsNamed :
      (name : String) (c : HotSwapCoordinator V)
      → IsNamedRegistry c
      → IsNamedRegistry (unregister_agent name c).0
  unfolding unregister_agent
  unregister_agent-IsNamed name c h = elim (Option-cases (agent_of name c)) [
    | inl e ↦ rw (e, unregister_agent) h
    | inr (agent, e) ↦
        let c' = unsubscribe_all agent.subscriptions c in
        rw (e, unregister_agent)
          (IsNamed-erase c'.registrations c'.agents
            (unsubscribe_all-IsNamed agent.subscriptions c h) name)
  ]

module _ {V : Type 0} where
  update_agent-IsNamed :
      (f : AgentRegistration V → AgentRegistration V) (name : String) (c : HotSwapCoordinator V)
      → ((a : AgentRegistration V) → (f a).name ≡ a.name)
      → IsNamedRegistry c
      → IsNamedRegistry (update_agent f name c).0
  unfolding update_agent
  update_agent-IsNamed f name c same h = elim (Option-cases (lookup name c.agents)) [
    | inl e ↦ rw (e, update_agent) h
    | inr (place, e) ↦ rw (e, update_agent) (update_registration-IsNamed f place c same h)
  ]

  pub update_agent_heartbeat-IsNamed :
      (now : ℕ) (name : String) (c : HotSwapCoordinator V)
      → IsNamedRegistry c
      → IsNamedRegistry (update_agent_heartbeat now name c).0
  unfolding update_agent_heartbeat
  update_agent_heartbeat-IsNamed now name c = update_agent-IsNamed _ name c (λ a. refl)

  pub update_agent_state-IsNamed :
      (now : ℕ) (name : String) (state : AgentState V) (c : HotSwapCoordinator V)
      → IsNamedRegistry c
      → IsNamedRegistry (update_agent_state now name state c).0
  unfolding update_agent_state
  update_agent_state-IsNamed now name state c = update_agent-IsNamed _ name c (λ a. refl)

module _ {V : Type 0} where
  and_then-IsNamed :
      (p : Phase V) (f : HotSwapCoordinator V → SwapSession V → SwapError → Phase V)
      (g : HotSwapCoordinator V → SwapSession V → Phase V)
      → IsNamedRegistry p.0
      → ((c : HotSwapCoordinator V) (s : SwapSession V) (e : SwapError)
          → IsNamedRegistry c
          → IsNamedRegistry (f c s e).0)
      → ((c : HotSwapCoordinator V) (s : SwapSession V)
          → IsNamedRegistry c
          → IsNamedRegistry (g c s).0)
      → IsNamedRegistry (and_then p f g).0
  and_then-IsNamed (c, s, some e) f g h on_error next = on_error c s e h
  and_then-IsNamed (c, s, none) f g h on_error next = next c s h

Result-cases : (r : Result SwapError (Unit {0})) → (r ≡ ok tt) ⊎ ((e : SwapError) × (r ≡ err e))
Result-cases (ok u) = inl refl
Result-cases (err e) = inr (e, refl)

module _ {V : Type 0} where
  Copied-cases :
      (k : Copied V)
      → (k ≡ unserializable) ⊎ (k ≡ undeserializable) ⊎ ((copy : AgentState V) × (k ≡ copied copy))
  Copied-cases unserializable = inl refl
  Copied-cases undeserializable = inr (inl refl)
  Copied-cases (copied copy) = inr (inr (copy, refl))

module _ {V : Type 0} (w : World V) where
  module _ (c : HotSwapCoordinator V) (s : SwapSession V) (h : IsNamedRegistry c) where
    capture_state-IsNamed :
        (agent : AgentRegistration V) → IsNamedRegistry (capture_state w agent c s).0
    unfolding capture_state
    capture_state-IsNamed agent = elim (Copied-cases (w.copy_state agent.state)) [
      | inl e ↦ rw (e, capture_state) h
      | inr (inl e) ↦ rw (e, capture_state) h
      | inr (inr (copy, e)) ↦ rw (e, capture_state) h
    ]

    transfer_state-IsNamed : (new : AgentSpec V) → IsNamedRegistry (transfer_state w new c s).0
    unfolding transfer_state
    transfer_state-IsNamed new =
        let r =
          register_agent (w.clock state_made) (w.clock registered) (w.clock heartbeat) new c in
        let kept =
          register_agent-IsNamed (w.clock state_made) (w.clock registered) (w.clock heartbeat) new c
            h in
        elim (Result-cases r.1) [
          | inl e ↦ rw (e, transfer_state) kept
          | inr (x, e) ↦ rw (e, transfer_state) kept
        ]

    start_new_agent-IsNamed : (new : AgentSpec V) → IsNamedRegistry (start_new_agent w new c s).0
    unfolding start_new_agent
    start_new_agent-IsNamed new = elim (Bool-cases w.start_sent) [
      | inl e ↦ rw (e, start_new_agent) h
      | inr e ↦ rw (e, start_new_agent) h
    ]

    verify_agent-IsNamed : (new : AgentSpec V) → IsNamedRegistry (verify_agent w new c s).0
    unfolding verify_agent
    verify_agent-IsNamed new = elim (Option-cases (agent_of new.name c)) [
      | inl e ↦ rw (e, verify_agent) h
      | inr (found, e) ↦ elim (Bool-cases (is_active found.status)) [
        | inr b ↦ rw (e, verify_agent) (rw b h)
        | inl b ↦ elim (Bool-cases w.ping_answered) [
          | inl a ↦ rw (e, verify_agent) (rw b (rw a h))
          | inr a ↦ rw (e, verify_agent) (rw b (rw a h))
        ]
      ]
    ]

    pause_agent-IsNamed :
        (place : ℕ) (agent : AgentRegistration V)
        → IsNamedRegistry (pause_agent w place agent c s).0
    unfolding pause_agent
    pause_agent-IsNamed place agent =
        let kept = update_registration-IsNamed (with_status agent_paused) place c (λ a. refl) h in
        elim (Bool-cases w.pause_sent) [
          | inl e ↦ rw (e, pause_agent) kept
          | inr e ↦ rw (e, pause_agent) kept
        ]

    resume_agent-IsNamed :
        (place : ℕ) (agent : AgentRegistration V) → IsNamedRegistry (resume_agent w place agent c)
    unfolding resume_agent
    resume_agent-IsNamed place agent =
        update_registration-IsNamed (with_status agent_active) place c (λ a. refl) h

    roll_back-IsNamed :
        (place : ℕ) (agent : AgentRegistration V) (e : SwapError)
        → IsNamedRegistry (roll_back w place agent c s e).0
    unfolding roll_back
    roll_back-IsNamed place agent e = resume_agent-IsNamed place agent

    finish-IsNamed :
        (place : ℕ) (agent : AgentRegistration V) → IsNamedRegistry (finish w place agent c s).0
    unfolding finish terminate_agent
    finish-IsNamed place agent =
        let c' = update_registration (with_status agent_terminating) place c in
        unregister_agent-IsNamed agent.name (emit (sent agent.name "terminate") c')
          (update_registration-IsNamed (with_status agent_terminating) place c (λ a. refl) h)

  replace-IsNamed :
      (place : ℕ) (agent : AgentRegistration V) (new : AgentSpec V) (c : HotSwapCoordinator V)
      (s : SwapSession V)
      → IsNamedRegistry c
      → IsNamedRegistry (replace w place agent new c s).0
  unfolding replace
  replace-IsNamed place agent new c s h =
      and_then-IsNamed (transfer_state w new c s) _ _ (transfer_state-IsNamed c s h new)
        (λ d t e k. roll_back-IsNamed d t k place agent e)
        (λ c1 s1 h1.
          and_then-IsNamed (start_new_agent w new c1 s1) _ _ (start_new_agent-IsNamed c1 s1 h1 new)
            (λ d t e k. roll_back-IsNamed d t k place agent e)
            (λ c2 s2 h2.
              and_then-IsNamed (verify_agent w new c2 s2) _ _ (verify_agent-IsNamed c2 s2 h2 new)
                (λ d t e k. roll_back-IsNamed d t k place agent e)
                (λ c3 s3 h3. finish-IsNamed c3 s3 h3 place agent)))

  swap_phases-IsNamed :
      (place : ℕ) (agent : AgentRegistration V) (name : String) (config : Option (Dict V))
      (c : HotSwapCoordinator V) (s : SwapSession V)
      → IsNamedRegistry c
      → IsNamedRegistry (swap_phases w place agent name config c s).0
  unfolding swap_phases abandon
  swap_phases-IsNamed place agent name config c s h =
      and_then-IsNamed (capture_state w agent c s) _ _ (capture_state-IsNamed c s h agent)
        (λ d t e k. k)
        (λ c1 s1 h1.
          and_then-IsNamed (pause_agent w place agent c1 s1) _ _
            (pause_agent-IsNamed c1 s1 h1 place agent) (λ d t e k. k)
            (λ c2 s2 h2.
              replace-IsNamed place agent (successor name config agent s2.state_snapshot) c2 s2 h2))

  pub swap_agent-IsNamed :
      (id old_name new_name : String) (config : Option (Dict V)) (c : HotSwapCoordinator V)
      → IsNamedRegistry c
      → IsNamedRegistry (swap_agent w id old_name new_name config c).0
  unfolding swap_agent
  swap_agent-IsNamed id old_name new_name config c h =
      elim (Option-cases (lookup old_name c.agents)) [
        | inl e ↦ rw (e, swap_agent) h
        | inr (place, e) ↦ elim (Option-cases (get_elem? c.registrations place)) [
          | inl f ↦ rw (e, swap_agent) (rw f h)
          | inr (agent, f) ↦
              rw (e, swap_agent)
                (rw f (
                  swap_phases-IsNamed place agent new_name config c
                    (new_session w id old_name new_name) h))
        ]
      ]

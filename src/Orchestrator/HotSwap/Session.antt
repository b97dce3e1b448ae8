-- ===== src/Orchestrator/HotSwap/Session.antt =====
-- What a swap (internal/orchestrator/hotswap.go, SwapAgent) reports, and what its session says.
use cryptofunk.Prelude.{
  ℕ, ◌≡◌, ◌⊎◌, refl, ap, ◌∙◌, inl, inr, String, Option, none, some, Option-cases, get_elem?, eq_iff,
}
use cryptofunk.Prelude.Dict.{Dict, lookup, lookup-insert}
use cryptofunk.Orchestrator.HotSwap.{
  AgentRegistration, AgentSpec, SwapSession, SwapError, swap_completed, swap_failed,
  old_agent_not_found, HotSwapCoordinator, at_place, agent_of,
}
use cryptofunk.Orchestrator.HotSwap.Steps.{World}
use cryptofunk.Orchestrator.HotSwap.Swap.{
  Phase, and_then, abandon, roll_back, finish, capture_state, pause_agent, transfer_state,
  start_new_agent, verify_agent, replace, successor, swap_phases, new_session, with_session,
  swap_agent,
}

module _ {V : Type 0} where
  -- The session is completed and there is no error, or it is failed with the error in it.
  abbrev pub IsEnded : SwapSession V → Option SwapError → Type 0
  IsEnded s error =
      ((error ≡ none) × (s.status ≡ swap_completed))
      ⊎ ((e : SwapError) × (error ≡ some e) × (s.status ≡ swap_failed) × (s.error_message ≡ some e))

  and_then-IsEnded :
      (p : Phase V) (f : HotSwapCoordinator V → SwapSession V → SwapError → Phase V)
      (g : HotSwapCoordinator V → SwapSession V → Phase V)
      → ((c : HotSwapCoordinator V) (s : SwapSession V) (e : SwapError)
          → IsEnded (f c s e).1 (f c s e).2)
      → ((c : HotSwapCoordinator V) (s : SwapSession V) → IsEnded (g c s).1 (g c s).2)
      → IsEnded (and_then p f g).1 (and_then p f g).2
  and_then-IsEnded (c, s, some e) f g on_error next = on_error c s e
  and_then-IsEnded (c, s, none) f g on_error next = next c s

module _ {V : Type 0} (w : World V) (place : ℕ) (agent : AgentRegistration V) where
  roll_back-IsEnded :
      (c : HotSwapCoordinator V) (s : SwapSession V) (e : SwapError)
      → IsEnded (roll_back w place agent c s e).1 (roll_back w place agent c s e).2
  unfolding roll_back
  roll_back-IsEnded c s e = inr (e, refl, refl, refl)

  abandon-IsEnded :
      (c : HotSwapCoordinator V) (s : SwapSession V) (e : SwapError)
      → IsEnded (abandon w c s e).1 (abandon w c s e).2
  unfolding abandon
  abandon-IsEnded c s e = inr (e, refl, refl, refl)

  finish-IsEnded :
      (c : HotSwapCoordinator V) (s : SwapSession V)
      → IsEnded (finish w place agent c s).1 (finish w place agent c s).2
  unfolding finish
  finish-IsEnded c s = inl (refl, refl)

  replace-IsEnded :
      (new : AgentSpec V) (c : HotSwapCoordinator V) (s : SwapSession V)
      → IsEnded (replace w place agent new c s).1 (replace w place agent new c s).2
  unfolding replace
  replace-IsEnded new c s =
      and_then-IsEnded (transfer_state w new c s) _ _ roll_back-IsEnded (λ c1 s1.
        and_then-IsEnded (start_new_agent w new c1 s1) _ _ roll_back-IsEnded (λ c2 s2.
          and_then-IsEnded (verify_agent w new c2 s2) _ _ roll_back-IsEnded finish-IsEnded))

  swap_phases-IsEnded :
      (name : String) (config : Option (Dict V)) (c : HotSwapCoordinator V) (s : SwapSession V)
      → IsEnded
          (swap_phases w place agent name config c s).1
          (swap_phases w place agent name config c s).2
  unfolding swap_phases
  swap_phases-IsEnded name config c s =
      and_then-IsEnded (capture_state w agent c s) _ _ abandon-IsEnded (λ c1 s1.
        and_then-IsEnded (pause_agent w place agent c1 s1) _ _ abandon-IsEnded
          (λ c2 s2. replace-IsEnded (successor name config agent s2.state_snapshot) c2 s2))

module _ {V : Type 0} (w : World V) (id old_name new_name : String) (config : Option (Dict V))
    (c : HotSwapCoordinator V) where
  absent_name :
      lookup old_name c.agents ≡ none
      → swap_agent w id old_name new_name config c ≡ (c, none, some (old_agent_not_found old_name))
  unfolding swap_agent
  absent_name e = rw (e, swap_agent) refl

  absent_agent :
      (place : ℕ)
      → lookup old_name c.agents ≡ some place
      → get_elem? c.registrations place ≡ none
      → swap_agent w id old_name new_name config c ≡ (c, none, some (old_agent_not_found old_name))
  unfolding swap_agent
  absent_agent place e f = rw (e, swap_agent) (rw f refl)

  present_agent :
      (place : ℕ) (agent : AgentRegistration V)
      → lookup old_name c.agents ≡ some place
      → get_elem? c.registrations place ≡ some agent
      → swap_agent w id old_name new_name config c
        ≡ with_session id
            (swap_phases w place agent new_name config c (new_session w id old_name new_name))
  unfolding swap_agent
  present_agent place agent e f = rw (e, swap_agent) (rw f refl)

-- A swap of a name that leads to nobody reports that and changes nothing. Any other swap, however
-- it goes, returns the session that is then found under its id; and it is either completed, with
-- no error reported, or failed with the error that is reported.
pub swap_agent-IsEnded :
    {V : Type 0} (w : World V) (id old_name new_name : String) (config : Option (Dict V))
    (c : HotSwapCoordinator V)
    → let (c', session, error) = swap_agent w id old_name new_name config c in
      ((agent_of old_name c ≡ none)
        × (swap_agent w id old_name new_name config c
            ≡ (c, none, some (old_agent_not_found old_name))))
      ⊎ ((s : SwapSession V) × (session ≡ some s) × (lookup id c'.swaps ≡ some s) × IsEnded s error)
unfolding agent_of
swap_agent-IsEnded w id old_name new_name config c =
    elim (Option-cases (lookup old_name c.agents)) [
      | inl e ↦ inl (ap (at_place c.registrations) e, absent_name w id old_name new_name config c e)
      | inr (place, e) ↦ elim (Option-cases (get_elem? c.registrations place)) [
        | inl f ↦ inl (
          ap (at_place c.registrations) e ∙ f,
          absent_agent w id old_name new_name config c place e f,
        )
        | inr (agent, f) ↦
            let s0 = new_session w id old_name new_name in
            let p = swap_phases w place agent new_name config c s0 in
            rw (present_agent w id old_name new_name config c place agent e f) (
              inr (
                p.1,
                refl,
                lookup-insert id id p.1 p.0.swaps ∙ rw ((eq_iff id id).1 refl) refl,
                swap_phases-IsEnded w place agent new_name config c s0,
              ))
      ]
    ]

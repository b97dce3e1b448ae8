-- ===== src/Orchestrator/HotSwap/Capture.antt =====
-- The state that a swap moves (internal/orchestrator/hotswap.go, captureState).
use cryptofunk.Prelude.{
  ℕ, ◌-◌, ◌≤◌, ◌<◌, ◌≡◌, refl, inl, inr, some, List, [], ◌∷◌, ◌++◌, arith, ltb, Bool-cases, length,
  drop, length-append, length-drop,
}
use cryptofunk.Prelude.Keep.{drop-suffix, drop-append}
use cryptofunk.Orchestrator.HotSwap.{
  AgentState, AgentRegistration, SwapSession, HotSwapCoordinator, StateSnapshot,
}
use cryptofunk.Orchestrator.HotSwap.Steps.{
  copied, World, snapshot_taken, trim_history, snapshot_of, captured,
}
use cryptofunk.Orchestrator.HotSwap.Swap.{capture_state}
use cryptofunk.Orchestrator.HotSwap.Phases.{capture_state-copied}

module _ {A : Type 0} (max : ℕ) (xs : List A) (x : A) where
  -- The last of `max` elements, the new one last unless there is room for none.
  pub record IsTrimmed (kept : List A) : Type 0 where
    pub bound : length kept ≤ max
    pub older : (pre : List A) × (xs ++ x ∷ [] ≡ pre ++ kept)
    pub newest : 0 < max → (pre : List A) × (kept ≡ pre ++ x ∷ [])

  trim_history-IsTrimmed : IsTrimmed (trim_history max (xs ++ x ∷ []))
  unfolding trim_history
  trim_history-IsTrimmed = elim (Bool-cases (ltb max (length (xs ++ x ∷ [])))) [
    | inl e ↦ rw e (record {
      bound = omega (arith, length-drop (length (xs ++ x ∷ []) - max) (xs ++ x ∷ []));
      older = drop-suffix (length (xs ++ x ∷ []) - max) (xs ++ x ∷ []);
      newest = λ l. (
        drop (length (xs ++ x ∷ []) - max) xs,
        drop-append (length (xs ++ x ∷ []) - max) xs x (omega (arith, length-append xs (x ∷ []))),
      );
    })
    | inr e ↦ rw e (record { bound = ground arith; older = ([], refl); newest = λ l. (xs, refl) })
  ]

-- If the state of the old agent can be copied, the session holds the copy, unchanged but for its
-- history: that is the most recent part, of at most the configured size, of the copied history
-- followed by a new snapshot of the old agent's state, which is in it if the size is not 0.
pub capture_state-IsTrimmed :
    {V : Type 0} (w : World V) (agent : AgentRegistration V) (copy : AgentState V)
    (c : HotSwapCoordinator V) (s : SwapSession V)
    → w.copy_state agent.state ≡ copied copy
    → (history : List (StateSnapshot V)) × ((capture_state w agent c s).1.state_snapshot
        ≡ some (record copy { history = history }))
      × IsTrimmed c.max_history_size copy.history
          (snapshot_of (w.clock snapshot_taken) agent.state)
          history
unfolding captured
capture_state-IsTrimmed w agent copy c s e = (
  _,
  (capture_state-copied w agent copy c s e).snapshot,
  trim_history-IsTrimmed c.max_history_size copy.history
      (snapshot_of (w.clock snapshot_taken) agent.state),
)

-- ===== src/Orchestrator/Consensus/Cleanup.antt =====
-- internal/orchestrator/consensus.go: what `CleanupExpiredSessions` does to the stored sessions.
use mathlib.Core.List.{map}
use cryptofunk.Prelude.{
  ℕ, ◌+◌, ltb, String, Bool, false, not, ◌≡◌, refl, ap, inl, inr, Bool-cases, List, [], ◌∷◌, length,
  keep, All, arith,
}
use cryptofunk.Prelude.Dict.{Dict}
use cryptofunk.Orchestrator.Consensus.{
  ConsensusSession, ConsensusManager, ConsensusStatus, consensus_active, consensus_pending,
  consensus_converged, consensus_failed, consensus_expired, is_active_status,
}
use cryptofunk.Orchestrator.Consensus.Delphi.{
  count_active_sessions, expire, sweep, cleanup_expired_sessions,
}

module _ {F : Type 0} where
  abbrev pub is_over : ℕ → String × ConsensusSession F → Bool
  is_over now (id, s) = ltb s.expires_at now

  sweep-stay :
      (now : ℕ) (m : Dict (ConsensusSession F))
      → (sweep now m).0 ≡ keep (λ e. not (is_over now e)) m
  unfolding sweep
  sweep-stay now [] = refl
  sweep-stay now ((id, s) ∷ m) = elim (Bool-cases (ltb s.expires_at now)) [
    | inl e ↦ rw e (sweep-stay now m)
    | inr e ↦ rw e (ap (λ r. (id, s) ∷ r) (sweep-stay now m))
  ]

  sweep-gone :
      (now : ℕ) (m : Dict (ConsensusSession F))
      → (sweep now m).1 ≡ map (λ e. expire e.1) (keep (is_over now) m)
  unfolding sweep
  sweep-gone now [] = refl
  sweep-gone now ((id, s) ∷ m) = elim (Bool-cases (ltb s.expires_at now)) [
    | inl e ↦ rw e (ap (λ r. expire s ∷ r) (sweep-gone now m))
    | inr e ↦ rw e (sweep-gone now m)
  ]

  length-sweep :
      (now : ℕ) (m : Dict (ConsensusSession F))
      → length (sweep now m).0 + length (sweep now m).1 ≡ length m
  unfolding sweep
  length-sweep now [] = omega arith
  length-sweep now ((id, s) ∷ m) = ground (arith, length-sweep now m)

  -- A session that has expired did not count, so its removal does not change the count.
  count-sweep_now :
      (now : ℕ) (m : Dict (ConsensusSession F))
      → count_active_sessions now (sweep now m).0 ≡ count_active_sessions now m
  unfolding sweep count_active_sessions
  count-sweep_now now [] = refl
  count-sweep_now now ((id, s) ∷ m) = ground (arith, count-sweep_now now m)

  expire-inactive : (s : ConsensusSession F) → is_active_status (expire s).status ≡ false
  expire-inactive s = of_status s.status refl
    where
      of_status :
          (status : ConsensusStatus)
          → s.status ≡ status
          → is_active_status (expire s).status ≡ false
      of_status consensus_active e = rw e
      of_status consensus_pending e = rw e
      of_status consensus_converged e = rw (e, expire) (rw e)
      of_status consensus_failed e = rw e
      of_status consensus_expired e = rw e

  All-inactive :
      (es : List (String × ConsensusSession F))
      → All (λ s. is_active_status s.status ≡ false) (map (λ e. expire e.1) es)
  All-inactive [] = tt
  All-inactive ((id, s) ∷ es) = (expire-inactive s, All-inactive es)

  -- The clean-up keeps the sessions that have not expired, in their order, and removes those that
  -- have; none of the removed is active afterwards; the number that it returns is that of the
  -- removed, and kept and removed are as many as there were; and as many sessions count as active as
  -- before.
  pub cleanup-keeps :
      (now : ℕ) (cm : ConsensusManager F)
      → let (cm', gone, removed) = cleanup_expired_sessions now cm in
        (cm'.sessions ≡ keep (λ e. not (is_over now e)) cm.sessions)
        × (gone ≡ map (λ e. expire e.1) (keep (is_over now) cm.sessions))
        × All (λ s. is_active_status s.status ≡ false) gone
        × (removed ≡ length gone)
        × (length cm'.sessions + removed ≡ length cm.sessions)
        × (count_active_sessions now cm'.sessions ≡ count_active_sessions now cm.sessions)
  unfolding cleanup_expired_sessions
  cleanup-keeps now cm = (
    sweep-stay now cm.sessions,
    sweep-gone now cm.sessions,
    rw (sweep-gone now cm.sessions) (All-inactive (keep (is_over now) cm.sessions)),
    refl,
    length-sweep now cm.sessions,
    count-sweep_now now cm.sessions,
  )

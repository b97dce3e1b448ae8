-- ===== src/Orchestrator/Consensus/Ends.antt =====
-- internal/orchestrator/consensus.go: a Delphi session ends, whatever its agents do, as long as the
-- timers of its rounds fire.
use cryptofunk.Prelude.{
  Option-cases, ℕ, suc, ◌≤◌, length-append, String, ◌≡◌, refl, sym, ap, ◌⊎◌, inl, inr, true, some,
  List, [], ◌∷◌, length, arith, ok, eq_iff,
}
use cryptofunk.Prelude.Dict.{lookup, insert, lookup-insert}
use cryptofunk.Orchestrator.Consensus.{
  ConsensusConfig, ConsensusSession, ConsensusManager, ConsensusStatus, consensus_active,
  consensus_failed, consensus_converged, consensus_pending, consensus_expired, is_active_status,
}
use cryptofunk.Orchestrator.Consensus.Rounds.{Outside, start_delphi_round}
use cryptofunk.Orchestrator.Consensus.Delphi.{check_start, start_delphi_consensus}
use cryptofunk.Orchestrator.Consensus.Shape.{IsSound, Shape, round_limit, active_OpenEnded}
use cryptofunk.Orchestrator.Consensus.Progress.{IsBeyond}
use cryptofunk.Orchestrator.Consensus.Run.{
  Event, handle_events, first_session, first_session-IsSound,
}
use cryptofunk.Orchestrator.Consensus.Tracked.{
  with_timers, AllOther, HasEnded, IsTracked, with_timers-Holds,
}

module _ {F : Type 0} where
  ended_at_limit :
      (s : ConsensusSession F) (k : ℕ)
      → IsSound s
      → IsBeyond k s
      → round_limit s.config.max_rounds ≤ k
      → HasEnded s
  ended_at_limit s k h b l = of_status s.status h b
    where
      of_status :
          (status : ConsensusStatus)
          → Shape (round_limit s.config.max_rounds) status s.rounds s.result
          → (is_active_status status ≡ true → suc k ≤ length s.rounds)
          → (status ≡ consensus_converged) ⊎ (status ≡ consensus_failed)
      of_status consensus_active ((done, x, e, _, _, _, m), _) b =
          absurd (omega (arith, b refl, ap length e, length-append done (x ∷ []), m, l))
      of_status consensus_pending h b = absurd h
      of_status consensus_converged h b = inl refl
      of_status consensus_failed h b = inr refl
      of_status consensus_expired h b = absurd h

  has_round :
      (s : ConsensusSession F) → IsSound s → is_active_status s.status ≡ true → 1 ≤ length s.rounds
  has_round s h e =
      let ((done, x, same, _, _, _, _), _) = active_OpenEnded s h e in
      omega (arith, ap length same, length-append done (x ∷ []))

  -- What an accepted start returns and stores.
  start-ok :
      (o : Outside F) (id topic question : String) (participants : List String)
      (config : ConsensusConfig F) (cm cm' : ConsensusManager F) (s : ConsensusSession F)
      → start_delphi_consensus o id topic question participants config cm ≡ (cm', ok s)
      → let first = first_session o id topic question participants config in
        (s ≡ first) × (cm'.sessions ≡ insert id first cm.sessions)
  unfolding start_delphi_consensus
  start-ok o id topic question participants config cm cm' s h =
      elim (Option-cases (check_start o participants config cm)) [
        | inl n ↦
            let e = rw (n, start_delphi_consensus) at h in (cc e, sym (ap (λ p. p.0.sessions) e))
        | inr (x, n) ↦ cc (rw (n, start_delphi_consensus) at h)
      ]

  -- A session that `StartDelphiConsensus` has started, with any configuration, is still stored and has ended, converged or failed, once the timers of rounds 1,
  -- 2 and so on up to the larger of 1 and the maximum of rounds have fired in order: with any other
  -- calls and timers before each of them, for this session too, but no clean-up after its expiry.
  pub delphi-HasEnded :
      (o : Outside F) (id topic question : String) (participants : List String)
      (config : ConsensusConfig F) (cm cm' : ConsensusManager F) (s : ConsensusSession F)
      (parts : List (List (Event F) × Outside F))
      → start_delphi_consensus o id topic question participants config cm ≡ (cm', ok s)
      → AllOther id s.expires_at parts
      → round_limit config.max_rounds ≤ length parts
      → (s' : ConsensusSession F) × (lookup id (handle_events (with_timers id 1 parts) cm').sessions
          ≡ some s')
        × HasEnded s'
  unfolding start_delphi_round
  delphi-HasEnded o id topic question participants config cm cm' s parts started others enough =
      let (same, stored) = start-ok o id topic question participants config cm cm' s started in
      let sound : IsSound s =
        rw same (first_session-IsSound o id topic question participants config) in
      let tracked : IsTracked config s.expires_at 0 s = record {
        sound = sound;
        same_config = ap (λ t. t.config) same;
        same_expiry = refl;
        beyond = λ e. has_round s sound e;
      } in
      let (s', l, t) =
        with_timers-Holds id config s.expires_at 0 parts cm' others (
          s,
          rw (stored, same, lookup-insert id id _ cm.sessions, (eq_iff id id).1 refl),
          tracked,
        ) in
      (
        s',
        l,
        ended_at_limit s' (length parts) t.sound (λ e. let more = t.beyond e in omega (arith, more))
            (rw t.same_config enough),
      )

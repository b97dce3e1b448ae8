-- ===== src/Orchestrator/Consensus/Sound.antt =====
-- Responses and timers keep the shape of the Delphi sessions of internal/orchestrator/consensus.go.
use cryptofunk.Prelude.{
  ℕ, suc, ◌-◌, ◌==◌, ◌≤◌, leb, ◌≡◌, refl, ap, sym, ◌∙◌, inl, inr, Bool-cases, Option-cases, none,
  List, [], ◌∷◌, ◌++◌, length, length-append, get_elem?, set, arith,
}
use cryptofunk.Orchestrator.Consensus.{Response, ConsensusRound, ConsensusSession, is_active_status}
use cryptofunk.Orchestrator.Consensus.Rounds.{
  Outside, round_completed, completed_round, with_response, is_participant, complete_delphi_round,
  respond, timed_out,
}
use cryptofunk.Orchestrator.Consensus.Shape.{
  round_limit, AllDone, IsSound, open_last, complete-Shape, complete_kept, AllDone-set,
  active_OpenEnded, active_status, last_round, set-append_last,
}

module _ {F : Type 0} where
  -- A round that lies open at the end of a session is completed in good order.
  complete-IsSound :
      (o : Outside F) (i : ℕ) (done : List (ConsensusRound F)) (x round : ConsensusRound F)
      (s : ConsensusSession F)
      → s.rounds ≡ done ++ x ∷ []
      → i ≡ length done
      → AllDone 0 done
      → round.number ≡ suc (length done)
      → suc (length done) ≤ round_limit s.config.max_rounds
      → s.result ≡ none
      → IsSound (complete_delphi_round o s.config i round s).0
  complete-IsSound o i done x round s e j d n l res =
      let size : length s.rounds ≡ suc (length done) =
        rw e (omega (arith, length-append done (x ∷ []))) in
      rw (complete_kept o s.config i round s).0 (
        complete-Shape o s.config i round s
          (AllDone-set s.rounds done i x (completed_round o round) (o.clock round_completed) e j d n
            refl)
          (omega (arith, n, size)) (omega (arith, size)) (omega (arith, size, l)) res)

  pub respond-IsSound :
      (o : Outside F) (r : Response F) (s : ConsensusSession F)
      → IsSound s
      → IsSound (respond o r s).0.0
  unfolding respond
  respond-IsSound o r s h = elim (Bool-cases (is_active_status s.status)) [
    | inr e ↦ rw e h
    | inl e ↦
        let ((done, x, eq, d, n, c, l), res) = active_OpenEnded s h e in
        let (j, g) = last_round s.rounds done x eq in
        let x' = with_response r x in
        let i = length s.rounds - 1 in
        let eq' : set s.rounds i x' ≡ done ++ x' ∷ [] =
          rw (eq, (last_round (done ++ x ∷ []) done x refl).0, set-append_last done x x') in
        elim (Bool-cases (is_participant r.agent_name s.participants)) [
          | inr p ↦ rw (e, g, p) h
          | inl p ↦ elim (Bool-cases (length x'.responses == length s.participants)) [
            | inl full ↦
                rw (e, g, p, full)
                  (complete-IsSound o i done x' x' (record s { rounds = set s.rounds i x' }) eq' j d
                    n l res)
            | inr waiting ↦
                rw (e, g, p, waiting)
                  (rw (active_status s.status e) ((done, x', eq', d, n, c, l), res))
          ]
        ]
  ]

  pub timed_out-IsSound :
      (o : Outside F) (number : ℕ) (s : ConsensusSession F)
      → IsSound s
      → IsSound (timed_out o number s).0
  unfolding timed_out
  timed_out-IsSound o number s h = elim (Bool-cases (is_active_status s.status)) [
    | inr e ↦ rw e h
    | inl e ↦
        let ((done, x, eq, d, n, c, l), res) = active_OpenEnded s h e in
        elim (Option-cases (get_elem? s.rounds (number - 1))) [
          | inl g ↦ rw (e, g) h
          | inr (round, g) ↦ elim (Option-cases round.completed_at) [
            | inr (t, closed) ↦ rw (e, g, closed) h
            | inl pending ↦
                let (j, same) = open_last 0 (number - 1) done x round d (rw eq at g) pending in
                elim (Bool-cases (leb s.config.min_participants (length round.responses))) [
                  | inl enough ↦
                      rw (e, g, pending, enough)
                        (complete-IsSound o (number - 1) done x round s eq j d
                          (sym (ap (λ q. q.number) same) ∙ n) l res)
                  | inr few ↦ rw (e, g, pending, few) ((done, x, eq, d, n, c, l), res)
                ]
          ]
        ]
  ]

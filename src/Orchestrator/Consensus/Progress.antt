-- ===== src/Orchestrator/Consensus/Progress.antt =====
-- What a response or a timer does to the number of rounds of a Delphi session of
-- internal/orchestrator/consensus.go.
use cryptofunk.Prelude.{
  ℕ, suc, ◌-◌, ◌==◌, ◌≤◌, leb, true, ◌||◌, ◌≡◌, refl, inl, inr, Bool-cases, Option-cases, [], ◌∷◌,
  length, length-set, length-append, get_elem?, get_elem?-ne-none, set, arith,
}
use cryptofunk.Orchestrator.Consensus.{
  Response, ConsensusRound, ConsensusConfig, ConsensusSession, is_active_status,
}
use cryptofunk.Orchestrator.Consensus.Statistics.{calculate_statistics}
use cryptofunk.Orchestrator.Consensus.Rounds.{
  Outside, completion_updated, completed_round, new_round, with_response, is_participant,
  start_delphi_round, finalize_delphi_consensus, complete_delphi_round, respond, timed_out,
}
use cryptofunk.Orchestrator.Consensus.Shape.{
  IsSound, open_last, closed_before, complete_kept, active_OpenEnded,
}

module _ {F : Type 0} where
  -- A session that is active after a step was active before it, has no fewer rounds, and the same
  -- configuration and expiry.
  abbrev pub Advances : ConsensusSession F → ConsensusSession F → Type 0
  Advances s s' =
      (is_active_status s'.status ≡ true
        → (is_active_status s.status ≡ true) × (length s.rounds ≤ length s'.rounds))
      × (s'.config ≡ s.config)
      × (s'.expires_at ≡ s.expires_at)

  -- A session that is still active has had more than `k` rounds.
  abbrev pub IsBeyond : ℕ → ConsensusSession F → Type 0
  IsBeyond k s = is_active_status s.status ≡ true → suc k ≤ length s.rounds

  pub IsBeyond-Advances :
      (k : ℕ) (s s' : ConsensusSession F) → Advances s s' → IsBeyond k s → IsBeyond k s'
  IsBeyond-Advances k s s' a b e = let more = b (a.0 e).0 in omega (arith, more, (a.0 e).1)

  complete-IsBeyond :
      (o : Outside F) (config : ConsensusConfig F) (i : ℕ) (round : ConsensusRound F)
      (s : ConsensusSession F)
      → IsBeyond (length s.rounds) (complete_delphi_round o config i round s).0
  unfolding complete_delphi_round finalize_delphi_consensus start_delphi_round
  complete-IsBeyond o config i round s =
      elim (Bool-cases
        ((calculate_statistics o.floats round).convergence || leb config.max_rounds round.number)) [
          | inl over ↦ rw over (λ a. cc)
          | inr more ↦ rw more (λ a. omega (
            arith,
            length-set s.rounds i (completed_round o round),
            length-append (set s.rounds i (completed_round o round)) (
                new_round o (record s {
                  rounds = set s.rounds i (completed_round o round);
                  updated_at = o.clock completion_updated;
                })
                ∷ []),
          ))
        ]

  pub respond-Advances :
      (o : Outside F) (r : Response F) (s : ConsensusSession F) → Advances s (respond o r s).0.0
  unfolding respond
  respond-Advances o r s = elim (Bool-cases (is_active_status s.status)) [
    | inr e ↦ rw e (λ a. cc, refl, refl)
    | inl e ↦ elim (Option-cases (get_elem? s.rounds (length s.rounds - 1))) [
      | inl g ↦ rw (e, g) (λ a. (refl, omega arith), refl, refl)
      | inr (x, g) ↦ elim (Bool-cases (is_participant r.agent_name s.participants)) [
        | inr p ↦ rw (e, g, p) (λ a. (refl, omega arith), refl, refl)
        | inl p ↦
            let i = length s.rounds - 1 in
            let x' = with_response r x in
            let s' = record s { rounds = set s.rounds i x' } in
            let size = length-set s.rounds i x' in
            elim (Bool-cases (length x'.responses == length s.participants)) [
              | inl full ↦
                  rw (e, g, p, full)
                    (
                      λ a. (
                        refl,
                        let b = complete-IsBeyond o s.config i x' s' a in omega (arith, b, size),
                      ),
                      (complete_kept o s.config i x' s').0,
                      (complete_kept o s.config i x' s').1,
                    )
              | inr waiting ↦ rw (e, g, p, waiting) (λ a. (refl, omega (arith, size)), refl, refl)
            ]
      ]
    ]
  ]

  pub timed_out-Advances :
      (o : Outside F) (number : ℕ) (s : ConsensusSession F) → Advances s (timed_out o number s).0
  unfolding timed_out
  timed_out-Advances o number s = elim (Bool-cases (is_active_status s.status)) [
    | inr e ↦ rw e (λ a. cc, refl, refl)
    | inl e ↦ elim (Option-cases (get_elem? s.rounds (number - 1))) [
      | inl g ↦ rw (e, g) (λ a. (refl, omega arith), refl, refl)
      | inr (x, g) ↦ elim (Option-cases x.completed_at) [
        | inr (t, closed) ↦ rw (e, g, closed) (λ a. (refl, omega arith), refl, refl)
        | inl pending ↦ elim (Bool-cases (leb s.config.min_participants (length x.responses))) [
          | inl enough ↦
              rw (e, g, pending, enough)
                (
                  λ a. (
                    refl,
                    let b = complete-IsBeyond o s.config (number - 1) x s a in omega (arith, b),
                  ),
                  (complete_kept o s.config (number - 1) x s).0,
                  (complete_kept o s.config (number - 1) x s).1,
                )
          | inr few ↦ rw (e, g, pending, few) (λ a. cc, refl, refl)
        ]
      ]
    ]
  ]

  -- Once the timer of round `k + 1` has fired, the session is over or in a later round.
  pub timed_out-IsBeyond :
      (o : Outside F) (k : ℕ) (s : ConsensusSession F)
      → IsSound s
      → (is_active_status s.status ≡ true → suc k ≤ length s.rounds)
      → IsBeyond (suc k) (timed_out o (suc k) s).0
  unfolding timed_out
  timed_out-IsBeyond o k s h before = elim (Bool-cases (is_active_status s.status)) [
    | inr e ↦ rw e (λ a. cc)
    | inl e ↦
        let ((done, x, eq, d, n, c, l), res) = active_OpenEnded s h e in
        let index : suc k - 1 ≡ k = omega arith in
        let reached = before e in
        let size : length s.rounds ≡ suc (length done) =
          rw eq (omega (arith, length-append done (x ∷ []))) in
        elim (Option-cases (get_elem? s.rounds k)) [
          | inl g ↦ absurd (get_elem?-ne-none s.rounds k reached g)
          | inr (round, g) ↦ elim (Option-cases round.completed_at) [
            | inr (t, closed) ↦
                rw (e, index, g, closed)
                  (λ a.
                    let early = closed_before k done x round t (rw eq at g) c closed in
                    omega (arith, early, size))
            | inl pending ↦
                let (j, same) = open_last 0 k done x round d (rw eq at g) pending in
                elim (Bool-cases (leb s.config.min_participants (length round.responses))) [
                  | inl enough ↦
                      rw (e, index, g, pending, enough)
                        (λ a.
                          let b = complete-IsBeyond o s.config (suc k - 1) round s a in
                          omega (arith, b, size, j))
                  | inr few ↦ rw (e, index, g, pending, few) (λ a. cc)
                ]
          ]
        ]
  ]

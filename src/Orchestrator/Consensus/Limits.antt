-- ===== src/Orchestrator/Consensus/Limits.antt =====
-- internal/orchestrator/consensus.go: how many sessions count as active, and what the clean-up
-- removes.
use cryptofunk.Prelude.{
  ℕ, suc, ◌≤◌, ltb, String, true, false, ◌≡◌, refl, subst, inl, inr, Bool-cases, some, [], ◌∷◌,
  str_eq, arith,
}
use cryptofunk.Prelude.Dict.{Dict, insert, lookup}
use cryptofunk.Orchestrator.Consensus.{
  Response, ConsensusSession, ConsensusStatus, consensus_active, consensus_pending,
  consensus_converged, consensus_failed, consensus_expired, is_active_status,
}
use cryptofunk.Orchestrator.Consensus.Rounds.{Outside, respond, timed_out}
use cryptofunk.Orchestrator.Consensus.Delphi.{is_live, is_counted, count_active_sessions, sweep}
use cryptofunk.Orchestrator.Consensus.Progress.{Advances}

active-is_live : (status : ConsensusStatus) → is_active_status status ≡ true → is_live status ≡ true
active-is_live consensus_active e = refl
active-is_live consensus_pending e = cc
active-is_live consensus_converged e = cc
active-is_live consensus_failed e = cc
active-is_live consensus_expired e = cc

module _ {F : Type 0} where
  pub count-later :
      (now later : ℕ) (m : Dict (ConsensusSession F))
      → now ≤ later
      → count_active_sessions later m ≤ count_active_sessions now m
  unfolding count_active_sessions
  count-later now later [] l = omega arith
  count-later now later ((id, s) ∷ m) l = ground (arith, count-later now later m l)

  pub count-insert :
      (now : ℕ) (id : String) (s : ConsensusSession F) (m : Dict (ConsensusSession F))
      → count_active_sessions now (insert id s m) ≤ suc (count_active_sessions now m)
  unfolding count_active_sessions insert
  count-insert now id s [] = ground arith
  count-insert now id s ((other, t) ∷ m) = elim (Bool-cases (str_eq other id)) [
    | inl e ↦ rw e (ground arith)
    | inr e ↦ rw e (ground (arith, count-insert now id s m))
  ]

  pub count-insert_known :
      (now : ℕ) (id : String) (old new : ConsensusSession F) (m : Dict (ConsensusSession F))
      → lookup id m ≡ some old
      → (is_counted now new ≡ true → is_counted now old ≡ true)
      → count_active_sessions now (insert id new m) ≤ count_active_sessions now m
  unfolding count_active_sessions insert lookup
  count-insert_known now id old new [] g k = cc
  count-insert_known now id old new ((other, t) ∷ m) g k = elim (Bool-cases (str_eq other id)) [
    | inl e ↦
        let same : t ≡ old = cc (rw e at g) in
        elim (Bool-cases (is_counted now new)) [
          | inl c ↦ rw (e, c, same, k c) (omega arith)
          | inr c ↦ rw (e, c) (ground arith)
        ]
    | inr e ↦
        rw e (let ih = count-insert_known now id old new m (rw e at g) k in ground (arith, ih))
  ]

  is_counted-lt :
      (now : ℕ) (s : ConsensusSession F) → is_counted now s ≡ true → ltb now s.expires_at ≡ true
  is_counted-lt now s c = elim (Bool-cases (is_live s.status)) [
    | inl e ↦ rw e at c
    | inr e ↦ cc (rw e at c)
  ]

  -- What an operation returns counts only if its session did.
  pub Advances-is_counted :
      (now : ℕ) (s s' : ConsensusSession F)
      → Advances s s'
      → (is_active_status s.status ≡ false → s' ≡ s)
      → is_counted now s' ≡ true
      → is_counted now s ≡ true
  Advances-is_counted now s s' a same c = elim (Bool-cases (is_active_status s.status)) [
    | inl e ↦ rw (active-is_live s.status e) (rw (← a.2) (is_counted-lt now s' c))
    | inr e ↦ subst (λ t. is_counted now t ≡ true) (same e) c
  ]

  pub respond-inactive :
      (o : Outside F) (r : Response F) (s : ConsensusSession F)
      → is_active_status s.status ≡ false
      → (respond o r s).0.0 ≡ s
  unfolding respond
  respond-inactive o r s e = rw e

  pub timed_out-inactive :
      (o : Outside F) (number : ℕ) (s : ConsensusSession F)
      → is_active_status s.status ≡ false
      → (timed_out o number s).0 ≡ s
  unfolding timed_out
  timed_out-inactive o number s e = rw e

  pub count-sweep :
      (now at : ℕ) (m : Dict (ConsensusSession F))
      → count_active_sessions now (sweep at m).0 ≤ count_active_sessions now m
  unfolding count_active_sessions sweep
  count-sweep now at [] = omega arith
  count-sweep now at ((id, s) ∷ m) = ground (arith, count-sweep now at m)

-- ===== src/Orchestrator/Consensus/Shape.antt =====
-- The shape of a stored Delphi session of internal/orchestrator/consensus.go, and that a
-- round that is started or completed keeps it.
use cryptofunk.Prelude.{
  ℕ, zero, suc, ◌+◌, ◌-◌, ◌≤◌, ◌<◌, leb, ltb, true, ◌||◌, ◌≡◌, refl, ap, inl, inr, Bool-cases,
  Option, none, some, List, [], ◌∷◌, ◌++◌, if◌then◌else◌, length, length-set, length-append,
  get_elem?, get_elem?-append, set, arith,
}
use cryptofunk.Orchestrator.Consensus.{
  ConsensusRound, ConsensusResult, ConsensusConfig, ConsensusSession, ConsensusStatus,
  consensus_pending, consensus_active, consensus_converged, consensus_failed, consensus_expired,
  is_active_status,
}
use cryptofunk.Orchestrator.Consensus.Statistics.{calculate_statistics}
use cryptofunk.Orchestrator.Consensus.Rounds.{
  Outside, completion_updated, completed_round, start_delphi_round, finalize_delphi_consensus,
  complete_delphi_round,
}

-- The most rounds that a session gets.
abbrev pub round_limit : ℕ → ℕ
round_limit max = if ltb 1 max then max else 1

pub active_status :
    (status : ConsensusStatus) → is_active_status status ≡ true → status ≡ consensus_active
active_status consensus_active e = refl
active_status consensus_pending e = cc
active_status consensus_converged e = cc
active_status consensus_failed e = cc
active_status consensus_expired e = cc

module _ {F : Type 0} where
  -- The rounds are numbered on from `i + 1`, and each is completed.
  abbrev pub AllDone : ℕ → List (ConsensusRound F) → Type 0
  AllDone i [] = Unit
  AllDone i (r ∷ rs) =
      ((r.number ≡ suc i) × (t : ℕ) × (r.completed_at ≡ some t)) × AllDone (suc i) rs

  -- The last round is open, and those before it are completed.
  abbrev pub OpenEnded : ℕ → List (ConsensusRound F) → Type 0
  OpenEnded limit rs =
      (done : List (ConsensusRound F)) × (last : ConsensusRound F) × (rs ≡ done ++ last ∷ [])
      × AllDone 0 done
      × (last.number ≡ suc (length done))
      × (last.completed_at ≡ none)
      × (suc (length done) ≤ limit)

  abbrev pub Shape :
      ℕ → ConsensusStatus → List (ConsensusRound F) → Option (ConsensusResult F) → Type 0
  Shape limit consensus_active rs result = OpenEnded limit rs × (result ≡ none)
  Shape limit consensus_failed rs result = OpenEnded limit rs × (result ≡ none)
  Shape limit consensus_converged rs result =
      AllDone 0 rs
      × (0 < length rs)
      × (length rs ≤ limit)
      × (end : ConsensusResult F) × (result ≡ some end)
      × (end.rounds ≡ length rs)
  Shape limit consensus_pending rs result = ⊥
  Shape limit consensus_expired rs result = ⊥

  abbrev pub IsSound : ConsensusSession F → Type 0
  IsSound s = Shape (round_limit s.config.max_rounds) s.status s.rounds s.result

  AllDone-append :
      (i : ℕ) (rs : List (ConsensusRound F)) (r : ConsensusRound F) (t : ℕ)
      → AllDone i rs
      → r.number ≡ suc (i + length rs)
      → r.completed_at ≡ some t
      → AllDone i (rs ++ r ∷ [])
  AllDone-append i [] r t h n c = ((omega (arith, n), t, c), tt)
  AllDone-append i (x ∷ rs) r t h n c =
      (h.0, AllDone-append (suc i) rs r t h.1 (omega (arith, n)) c)

  pub set-append_last :
      (rs : List (ConsensusRound F)) (x y : ConsensusRound F)
      → set (rs ++ x ∷ []) (length rs) y ≡ rs ++ y ∷ []
  set-append_last [] x y = refl
  set-append_last (r ∷ rs) x y = ap (λ l. r ∷ l) (set-append_last rs x y)

  pub set-set :
      (rs : List (ConsensusRound F)) (i : ℕ) (x y : ConsensusRound F)
      → set (set rs i x) i y ≡ set rs i y
  set-set [] i x y = refl
  set-set (r ∷ rs) zero x y = refl
  set-set (r ∷ rs) (suc i) x y = ap (λ l. r ∷ l) (set-set rs i x y)

  -- Among completed rounds and a last one, only the last can be open.
  pub open_last :
      (j i : ℕ) (rs : List (ConsensusRound F)) (x r : ConsensusRound F)
      → AllDone j rs
      → get_elem? (rs ++ x ∷ []) i ≡ some r
      → r.completed_at ≡ none
      → (i ≡ length rs) × (x ≡ r)
  open_last j zero [] x r h g c = (refl, cc)
  open_last j (suc i) [] x r h g c = cc
  open_last j zero (y ∷ rs) x r h g c = let (_, t, d) = h.0 in ground (arith, d, c, g)
  open_last j (suc i) (y ∷ rs) x r h g c =
      let (e, f) = open_last (suc j) i rs x r h.1 g c in (ap suc e, f)

  pub closed_before :
      (i : ℕ) (rs : List (ConsensusRound F)) (x r : ConsensusRound F) (t : ℕ)
      → get_elem? (rs ++ x ∷ []) i ≡ some r
      → x.completed_at ≡ none
      → r.completed_at ≡ some t
      → suc i ≤ length rs
  closed_before zero [] x r t g c d = ground (arith, g, c, d)
  closed_before (suc i) [] x r t g c d = cc
  closed_before zero (y ∷ rs) x r t g c d = omega arith
  closed_before (suc i) (y ∷ rs) x r t g c d =
      let early = closed_before i rs x r t g c d in omega (arith, early)

  start-Shape :
      (o : Outside F) (config : ConsensusConfig F) (s : ConsensusSession F) (limit : ℕ)
      → AllDone 0 s.rounds
      → suc (length s.rounds) ≤ limit
      → s.result ≡ none
      → let s' = (start_delphi_round o config s).0 in Shape limit s'.status s'.rounds s'.result
  unfolding start_delphi_round
  start-Shape o config s limit d l n = ((s.rounds, _, refl, d, refl, refl, l), n)

  pub complete-Shape :
      (o : Outside F) (config : ConsensusConfig F) (i : ℕ) (round : ConsensusRound F)
      (s : ConsensusSession F)
      → AllDone 0 (set s.rounds i (completed_round o round))
      → round.number ≡ length s.rounds
      → 0 < length s.rounds
      → length s.rounds ≤ round_limit config.max_rounds
      → s.result ≡ none
      → let s' = (complete_delphi_round o config i round s).0 in
        Shape (round_limit config.max_rounds) s'.status s'.rounds s'.result
  unfolding complete_delphi_round finalize_delphi_consensus
  complete-Shape o config i round s d e l m n =
      let same = length-set s.rounds i (completed_round o round) in
      elim (Bool-cases
        ((calculate_statistics o.floats round).convergence || leb config.max_rounds round.number)) [
          | inl over ↦ rw over (d, omega (arith, same), omega (arith, same), _, refl, refl)
          | inr more ↦ rw more (
              start-Shape o config
                (record s {
                  rounds = set s.rounds i (completed_round o round);
                  updated_at = o.clock completion_updated;
                })
                (round_limit config.max_rounds) d (ground (arith, same)) n)
        ]

  pub complete_kept :
      (o : Outside F) (config : ConsensusConfig F) (i : ℕ) (round : ConsensusRound F)
      (s : ConsensusSession F)
      → let s' = (complete_delphi_round o config i round s).0 in
        (s'.config ≡ s.config) × (s'.expires_at ≡ s.expires_at)
  unfolding complete_delphi_round finalize_delphi_consensus start_delphi_round
  complete_kept o config i round s = (ground arith, ground arith)

  -- The round that lies last is the one completed.
  pub AllDone-set :
      (rs done : List (ConsensusRound F)) (i : ℕ) (x r : ConsensusRound F) (t : ℕ)
      → rs ≡ done ++ x ∷ []
      → i ≡ length done
      → AllDone 0 done
      → r.number ≡ suc (length done)
      → r.completed_at ≡ some t
      → AllDone 0 (set rs i r)
  AllDone-set rs done i x r t e j d n c =
      rw (e, j, set-append_last done x r) (AllDone-append 0 done r t d (omega (arith, n)) c)

  pub active_OpenEnded :
      (s : ConsensusSession F)
      → IsSound s
      → is_active_status s.status ≡ true
      → OpenEnded (round_limit s.config.max_rounds) s.rounds × (s.result ≡ none)
  active_OpenEnded s h e = of_status s.status h e
    where
      of_status :
          (status : ConsensusStatus)
          → Shape (round_limit s.config.max_rounds) status s.rounds s.result
          → is_active_status status ≡ true
          → OpenEnded (round_limit s.config.max_rounds) s.rounds × (s.result ≡ none)
      of_status consensus_active h e = h
      of_status consensus_pending h e = cc
      of_status consensus_converged h e = cc
      of_status consensus_failed h e = cc
      of_status consensus_expired h e = cc

  pub last_round :
      (rs done : List (ConsensusRound F)) (x : ConsensusRound F)
      → rs ≡ done ++ x ∷ []
      → (length rs - 1 ≡ length done) × (get_elem? rs (length rs - 1) ≡ some x)
  last_round rs done x e =
      let j : length rs - 1 ≡ length done = rw e (omega (arith, length-append done (x ∷ []))) in
      (j, rw j (rw e (get_elem?-append done x)))

-- ===== src/Orchestrator/Consensus/Roster.antt =====
-- internal/orchestrator/consensus.go: who has responded in the rounds of a Delphi session took part
-- in it, and has responded once.
use cryptofunk.Prelude.{
  ℕ, zero, suc, ◌-◌, ◌==◌, leb, String, ◌||◌, ◌≡◌, refl, subst, inl, inr, Bool-cases, Option-cases,
  some, List, [], ◌∷◌, ◌++◌, length, set, get_elem?, All,
}
use cryptofunk.Prelude.Dict.{Entries}
use cryptofunk.Orchestrator.Consensus.{
  Response, ConsensusRound, ConsensusConfig, ConsensusSession, ConsensusManager, is_active_status,
}
use cryptofunk.Orchestrator.Consensus.Statistics.{calculate_statistics}
use cryptofunk.Orchestrator.Consensus.Rounds.{
  Outside, completion_updated, completed_round, new_round, with_response, is_participant,
  start_delphi_round, finalize_delphi_consensus, complete_delphi_round, respond, timed_out,
}
use cryptofunk.Orchestrator.Consensus.Run.{
  Event, starts, submits, fires, cleans, handle_event, handle_events, handle_event-Entries,
  StartMeets,
}
use cryptofunk.Orchestrator.Consensus.Answers.{DistinctKeys, KeysAmong, answers-insert}

module _ {A : Type 0} (P : A → Type 0) where
  All-set : (xs : List A) (i : ℕ) (v : A) → P v → All P xs → All P (set xs i v)
  All-set [] i v p h = tt
  All-set (x ∷ xs) zero v p h = (p, h.1)
  All-set (x ∷ xs) (suc i) v p h = (h.0, All-set xs i v p h.1)

  All-append_one : (xs : List A) (v : A) → P v → All P xs → All P (xs ++ v ∷ [])
  All-append_one [] v p h = (p, tt)
  All-append_one (x ∷ xs) v p h = (h.0, All-append_one xs v p h.1)

  pub All-get_elem? : (xs : List A) (i : ℕ) {a : A} → All P xs → get_elem? xs i ≡ some a → P a
  All-get_elem? [] i h g = cc
  All-get_elem? (x ∷ xs) zero h g = subst P (cc g) h.0
  All-get_elem? (x ∷ xs) (suc i) h g = All-get_elem? xs i h.1 g

module _ {F : Type 0} where
  -- Who has responded took part, and has one response.
  abbrev pub IsAnswered : List String → ConsensusRound F → Type 0
  IsAnswered ps round = DistinctKeys round.responses × KeysAmong ps round.responses

  abbrev RosterOf : List String → ConsensusSession F → Type 0
  RosterOf ps s = (s.participants ≡ ps) × All (IsAnswered ps) s.rounds

  abbrev pub IsRoster : ConsensusSession F → Type 0
  IsRoster s = All (IsAnswered s.participants) s.rounds

  complete-RosterOf :
      (ps : List String) (o : Outside F) (config : ConsensusConfig F) (i : ℕ)
      (round : ConsensusRound F) (s : ConsensusSession F)
      → IsAnswered ps round
      → RosterOf ps s
      → RosterOf ps (complete_delphi_round o config i round s).0
  unfolding complete_delphi_round finalize_delphi_consensus start_delphi_round
  complete-RosterOf ps o config i round s a (same, h) =
      let rounds = set s.rounds i (completed_round o round) in
      let kept = All-set (IsAnswered ps) s.rounds i (completed_round o round) a h in
      elim (Bool-cases
        ((calculate_statistics o.floats round).convergence || leb config.max_rounds round.number)) [
          | inl over ↦ rw over (same, kept)
          | inr more ↦ rw more (
            same,
            All-append_one (IsAnswered ps) rounds
                (new_round o
                  (record s { rounds = rounds; updated_at = o.clock completion_updated }))
                (tt, tt) kept,
          )
        ]

  respond-RosterOf :
      (ps : List String) (o : Outside F) (r : Response F) (s : ConsensusSession F)
      → RosterOf ps s
      → RosterOf ps (respond o r s).0.0
  unfolding respond
  respond-RosterOf ps o r s h = elim (Bool-cases (is_active_status s.status)) [
    | inr e ↦ rw e h
    | inl e ↦ elim (Option-cases (get_elem? s.rounds (length s.rounds - 1))) [
      | inl g ↦ rw (e, g) h
      | inr (x, g) ↦ elim (Bool-cases (is_participant r.agent_name s.participants)) [
        | inr p ↦ rw (e, g, p) h
        | inl p ↦
            let i = length s.rounds - 1 in
            let x' = with_response r x in
            let s' = record s { rounds = set s.rounds i x' } in
            let a : IsAnswered ps x' =
              answers-insert ps r.agent_name r x.responses (rw h.0 at p)
                (All-get_elem? (IsAnswered ps) s.rounds i h.1 g) in
            let h' : RosterOf ps s' = (h.0, All-set (IsAnswered ps) s.rounds i x' a h.1) in
            elim (Bool-cases (length x'.responses == length s.participants)) [
              | inl full ↦ rw (e, g, p, full) (complete-RosterOf ps o s.config i x' s' a h')
              | inr waiting ↦ rw (e, g, p, waiting) h'
            ]
      ]
    ]
  ]

  timed_out-RosterOf :
      (ps : List String) (o : Outside F) (number : ℕ) (s : ConsensusSession F)
      → RosterOf ps s
      → RosterOf ps (timed_out o number s).0
  unfolding timed_out
  timed_out-RosterOf ps o number s h = elim (Bool-cases (is_active_status s.status)) [
    | inr e ↦ rw e h
    | inl e ↦ elim (Option-cases (get_elem? s.rounds (number - 1))) [
      | inl g ↦ rw (e, g) h
      | inr (x, g) ↦ elim (Option-cases x.completed_at) [
        | inr (t, closed) ↦ rw (e, g, closed) h
        | inl pending ↦ elim (Bool-cases (leb s.config.min_participants (length x.responses))) [
          | inl enough ↦
              rw (e, g, pending, enough)
                (complete-RosterOf ps o s.config (number - 1) x s
                  (All-get_elem? (IsAnswered ps) s.rounds (number - 1) h.1 g) h)
          | inr few ↦ rw (e, g, pending, few) h
        ]
      ]
    ]
  ]

  -- From the participants of a session before to those after.
  RosterOf-IsRoster : (ps : List String) (s : ConsensusSession F) → RosterOf ps s → IsRoster s
  RosterOf-IsRoster ps s h = rw h.0 h.1

  StartMeets-IsRoster : (e : Event F) → StartMeets (λ id s. IsRoster s) e
  unfolding start_delphi_round
  StartMeets-IsRoster (starts o id topic question participants config) = ((tt, tt), tt)
  StartMeets-IsRoster (submits _ _ _ _ _ _) = tt
  StartMeets-IsRoster (fires _ _ _) = tt
  StartMeets-IsRoster (cleans _) = tt

  pub handle_events-IsRoster :
      (es : List (Event F)) (cm : ConsensusManager F)
      → Entries (λ id s. IsRoster s) cm.sessions
      → Entries (λ id s. IsRoster s) (handle_events es cm).sessions
  unfolding handle_events
  handle_events-IsRoster [] cm h = h
  handle_events-IsRoster (e ∷ es) cm h = handle_events-IsRoster es (handle_event e cm) (
      handle_event-Entries (λ id s. IsRoster s)
        (λ id o r s h.
          RosterOf-IsRoster s.participants (respond o r s).0.0
            (respond-RosterOf s.participants o r s (refl, h)))
        (λ id o number s h.
          RosterOf-IsRoster s.participants (timed_out o number s).0
            (timed_out-RosterOf s.participants o number s (refl, h)))
        e cm (StartMeets-IsRoster e) h)

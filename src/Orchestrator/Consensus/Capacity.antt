-- ===== src/Orchestrator/Consensus/Capacity.antt =====
-- internal/orchestrator/consensus.go: the limit of active sessions, over whole runs in which the two
-- parts of a call that starts a session are steps of their own.
use cryptofunk.Prelude.{
  suc, ◌<◌, ◌+◌, leb_false→lt, none, ap, sym, ◌∙◌, ℕ, ◌≤◌, leb, String, ◌≡◌, refl, subst, inl, inr,
  Bool-cases, Option, Option-cases, List, arith,
}
use cryptofunk.Prelude.Dict.{lookup}
use cryptofunk.Prelude.Floats.{Floats}
use cryptofunk.Orchestrator.Consensus.{
  ConsensusManager, ConsensusConfig, new_consensus_manager_with_config, or_default_consensus,
}
use cryptofunk.Orchestrator.Consensus.Rounds.{Outside, counted, respond, timed_out}
use cryptofunk.Orchestrator.Consensus.Delphi.{
  check_start, open_session, count_active_sessions, cleanup_expired_sessions,
  submit_delphi_response, round_timeout_handler,
}
use cryptofunk.Orchestrator.Consensus.Progress.{respond-Advances, timed_out-Advances}
use cryptofunk.Orchestrator.Consensus.Run.{
  Event, starts, submits, fires, cleans, handle_event, first_session, submit-sessions,
  timeout-sessions,
}
use cryptofunk.Orchestrator.Consensus.Limits.{
  count-later, count-insert, count-insert_known, Advances-is_counted, respond-inactive,
  timed_out-inactive, count-sweep,
}

-- The manager, the number of calls of `StartDelphiConsensus` between its two parts, and the time of
-- the last check of the limits.
pub record Overlap (F : Type 0) : Type 0 where
  pub manager : ConsensusManager F
  pub starting : ℕ
  pub now : ℕ

module _ {F : Type 0} where
  -- The calls that are no `StartDelphiConsensus`, and the timers.
  abbrev pub StartsNone : Event F → Type 0
  StartsNone (starts _ _ _ _ _ _) = ⊥
  StartsNone (submits _ _ _ _ _ _) = Unit
  StartsNone (fires _ _ _) = Unit
  StartsNone (cleans _) = Unit

  -- What changes something: a check of the limits that passes, the rest of a call that has passed it,
  -- and the other calls.
  pub data OverlapStep (s u : Overlap F) : Type 0 where
    passes :
        (o : Outside F) (participants : List String) (config : ConsensusConfig F)
        → s.now ≤ o.clock counted
        → check_start o participants config s.manager ≡ none
        → u ≡ record s { starting = suc s.starting; now = o.clock counted }
        → OverlapStep s u
    opens :
        (o : Outside F) (id topic question : String) (participants : List String)
        (config : ConsensusConfig F) (w : ℕ)
        → s.starting ≡ suc w
        → u ≡ record s {
          manager = (open_session o id topic question participants config s.manager).0;
          starting = w;
        }
        → OverlapStep s u
    handles :
        (e : Event F)
        → StartsNone e
        → u ≡ record s { manager = handle_event e s.manager }
        → OverlapStep s u

  -- Steps with at most `k` calls between the two parts at any time.
  pub data OverlapSteps (k : ℕ) (s : Overlap F) : Overlap F → Type 0 where
    here : OverlapSteps k s s
    next :
        {t u : Overlap F}
        → OverlapSteps k s t
        → OverlapStep t u
        → u.starting ≤ k
        → OverlapSteps k s u

  abbrev pub started : Floats F → Option (ConsensusConfig F) → Overlap F
  started f config = record {
    manager = new_consensus_manager_with_config f config;
    starting = 0;
    now = 0;
  }

  handle_event-config :
      (e : Event F) (cm : ConsensusManager F)
      → StartsNone e
      → (handle_event e cm).config ≡ cm.config
  unfolding handle_event submit_delphi_response round_timeout_handler cleanup_expired_sessions
  handle_event-config (starts _ _ _ _ _ _) cm n = absurd n
  handle_event-config (submits o id name value confidence reasoning) cm n =
      elim (Option-cases (lookup id cm.sessions)) [
        | inl g ↦ rw (g, handle_event, submit_delphi_response)
        | inr (s, g) ↦ rw (g, handle_event, submit_delphi_response)
      ]
  handle_event-config (fires o id number) cm n = elim (Option-cases (lookup id cm.sessions)) [
    | inl g ↦ rw (g, handle_event, round_timeout_handler)
    | inr (s, g) ↦ rw (g, handle_event, round_timeout_handler)
  ]
  handle_event-config (cleans now) cm n = refl

  -- No other call lets more sessions count.
  handle_event-count :
      (now : ℕ) (e : Event F) (cm : ConsensusManager F)
      → StartsNone e
      → count_active_sessions now (handle_event e cm).sessions
        ≤ count_active_sessions now cm.sessions
  unfolding handle_event cleanup_expired_sessions
  handle_event-count now (starts _ _ _ _ _ _) cm n = absurd n
  handle_event-count now (submits o id name value confidence reasoning) cm n =
      elim (submit-sessions o id name value confidence reasoning cm) [
        | inl e ↦ rw e (omega arith)
        | inr (s, r, g, e) ↦
            let same =
              count-insert_known now id s (respond o r s).0.0 cm.sessions g
                (Advances-is_counted now s _ (respond-Advances o r s) (respond-inactive o r s)) in
            rw e (omega (arith, same))
      ]
  handle_event-count now (fires o id number) cm n = elim (timeout-sessions o id number cm) [
    | inl e ↦ rw e (omega arith)
    | inr (s, g, e) ↦
        let same = count-insert_known now id s (timed_out o number s).0 cm.sessions g (
          Advances-is_counted now s _ (timed_out-Advances o number s)
            (timed_out-inactive o number s)) in
        rw e (omega (arith, same))
  ]
  handle_event-count now (cleans at) cm n = count-sweep now at cm.sessions

  check_start-room :
      (o : Outside F) (participants : List String) (config : ConsensusConfig F)
      (cm : ConsensusManager F)
      → check_start o participants config cm ≡ none
      → count_active_sessions (o.clock counted) cm.sessions < cm.config.max_active_sessions
  unfolding check_start
  check_start-room o participants config cm n =
      elim (Bool-cases
        (leb cm.config.max_active_sessions (count_active_sessions (o.clock counted) cm.sessions))) [
          | inl e ↦ cc (rw e at n)
          | inr e ↦ leb_false→lt _ _ e
        ]

  -- The active sessions, with those about to start, are fewer than `most`.
  abbrev HasRoom : ConsensusConfig F → ℕ → Overlap F → Type 0
  HasRoom config k s =
      (s.manager.config ≡ config)
      × (count_active_sessions s.now s.manager.sessions + s.starting
          < config.max_active_sessions + k)

  OverlapStep-HasRoom :
      (config : ConsensusConfig F) (k : ℕ) {s u : Overlap F}
      → OverlapStep s u
      → u.starting ≤ k
      → HasRoom config k s
      → HasRoom config k u
  OverlapStep-HasRoom config k {s} (passes o participants given l n made) few (kept, room) =
      let free = check_start-room o participants given s.manager n in
      let many : suc s.starting ≤ k = rw made at few in
      let same = ap (λ c. c.max_active_sessions) kept in
      subst (HasRoom config k) (sym made) (kept, omega (arith, free, many, same))
  OverlapStep-HasRoom config k {s} (opens o id topic question participants given w waits made) few
        (kept, room) =
      let more =
        count-insert s.now id (first_session o id topic question participants given)
          s.manager.sessions in
      subst (HasRoom config k) (sym made) (kept, omega (arith, more, room, waits))
  OverlapStep-HasRoom config k {s} (handles e n made) few (kept, room) =
      let fewer = handle_event-count s.now e s.manager n in
      subst (HasRoom config k) (sym made)
        (handle_event-config e s.manager n ∙ kept, omega (arith, fewer, room))

  OverlapSteps-HasRoom :
      (config : ConsensusConfig F) (k : ℕ) {s u : Overlap F}
      → OverlapSteps k s u
      → HasRoom config k s
      → HasRoom config k u
  OverlapSteps-HasRoom config k here h = h
  OverlapSteps-HasRoom config k (next r turn few) h =
      OverlapStep-HasRoom config k turn few (OverlapSteps-HasRoom config k r h)

  -- On a manager of any configuration, where at most `k` calls of `StartDelphiConsensus`, at least
  -- one, are between their check of the limits and the start of their session at any time, and the
  -- clock does not run back from one such check to the next: after any calls and timers, at any time
  -- from the last check on, fewer than `max_active_sessions + k` sessions count as active. For calls
  -- one after another, `k` is 1 and the limit is kept; every further call at once may exceed it by
  -- one more.
  pub active-lt :
      (f : Floats F) (config : Option (ConsensusConfig F)) (k later : ℕ) (u : Overlap F)
      → 1 ≤ k
      → OverlapSteps k (started f config) u
      → u.now ≤ later
      → count_active_sessions later u.manager.sessions
        < (or_default_consensus f config).max_active_sessions + k
  unfolding new_consensus_manager_with_config
  active-lt f config k later u l r at =
      let (kept, room) =
        OverlapSteps-HasRoom (or_default_consensus f config) k r
          (refl, (unfold count_active_sessions in omega (arith, l))) in
      let fewer = count-later u.now later u.manager.sessions at in omega (arith, room, fewer)

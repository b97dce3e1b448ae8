-- ===== src/Orchestrator/Consensus/Tracked.antt =====
-- internal/orchestrator/consensus.go: how a Delphi session moves on as the timers of its rounds fire.
use cryptofunk.Prelude.{
  ℕ, suc, ◌+◌, ◌≤◌, ltb, le→ltb_false, String, ◌≡◌, ◌≢◌, refl, ◌∙◌, subst, ap, ◌⊎◌, inl, inr, false,
  Bool-cases, some, List, [], ◌∷◌, ◌++◌, length, All, arith, str_eq, eq_iff,
}
use native.Mathlib.Nat.{add-zero}
use cryptofunk.Prelude.Dict.{Dict, lookup, insert, lookup-insert}
use cryptofunk.Orchestrator.Consensus.{
  ConsensusConfig, ConsensusSession, ConsensusManager, consensus_failed, consensus_converged,
}
use cryptofunk.Orchestrator.Consensus.Rounds.{Outside, respond, timed_out}
use cryptofunk.Orchestrator.Consensus.Delphi.{
  round_timeout_handler, cleanup_expired_sessions, sweep,
}
use cryptofunk.Orchestrator.Consensus.Shape.{IsSound}
use cryptofunk.Orchestrator.Consensus.Sound.{respond-IsSound, timed_out-IsSound}
use cryptofunk.Orchestrator.Consensus.Progress.{
  Advances, IsBeyond, IsBeyond-Advances, respond-Advances, timed_out-Advances, timed_out-IsBeyond,
}
use cryptofunk.Orchestrator.Consensus.Run.{
  Event, starts, submits, fires, cleans, handle_event, handle_events, start-sessions,
  submit-sessions, timeout-sessions,
}

str_ne : (a b : String) → a ≢ b → str_eq a b ≡ false
str_ne a b n = elim (Bool-cases (str_eq a b)) [ inl e ↦ absurd (n ((eq_iff a b).0 e)) | inr e ↦ e ]

module _ {F : Type 0} where
  handle_events-append :
      (xs ys : List (Event F)) (cm : ConsensusManager F)
      → handle_events (xs ++ ys) cm ≡ handle_events ys (handle_events xs cm)
  unfolding handle_events
  handle_events-append [] ys cm = refl
  handle_events-append (x ∷ xs) ys cm = handle_events-append xs ys (handle_event x cm)

  -- The timers of a session's rounds fire in order, each after some other events.
  abbrev pub with_timers : String → ℕ → List (List (Event F) × Outside F) → List (Event F)
  with_timers id number [] = []
  with_timers id number ((before, o) ∷ later) =
      before ++ fires o id number ∷ with_timers id (suc number) later

  -- An event that neither starts a session of this identifier nor cleans up after the given time.
  abbrev pub IsOther : String → ℕ → Event F → Type 0
  IsOther id expiry (starts _ other _ _ _ _) = other ≢ id
  IsOther id expiry (submits _ _ _ _ _ _) = Unit
  IsOther id expiry (fires _ _ _) = Unit
  IsOther id expiry (cleans now) = now ≤ expiry

  abbrev pub AllOther : String → ℕ → List (List (Event F) × Outside F) → Type 0
  AllOther id expiry parts = All (λ part. All (IsOther id expiry) part.0) parts

  abbrev pub HasEnded : ConsensusSession F → Type 0
  HasEnded s = (s.status ≡ consensus_converged) ⊎ (s.status ≡ consensus_failed)

  -- What is known of the sessions of one identifier once `k` of its timers have fired.
  pub record IsTracked (config : ConsensusConfig F) (expiry k : ℕ) (s : ConsensusSession F)
      : Type 0 where
    pub sound : IsSound s
    pub same_config : s.config ≡ config
    pub same_expiry : s.expires_at ≡ expiry
    pub beyond : IsBeyond k s

  module _ (id : String) (config : ConsensusConfig F) (expiry : ℕ) where
    advance :
        (k : ℕ) (s s' : ConsensusSession F)
        → IsSound s'
        → Advances s s'
        → IsTracked config expiry k s
        → IsTracked config expiry k s'
    advance k s s' h a t = record {
      sound = h;
      same_config = a.1 ∙ t.same_config;
      same_expiry = a.2 ∙ t.same_expiry;
      beyond = IsBeyond-Advances k s s' a t.beyond;
    }

    sweep-lookup :
        (now : ℕ) (m : Dict (ConsensusSession F)) (s : ConsensusSession F)
        → now ≤ s.expires_at
        → lookup id m ≡ some s
        → lookup id (sweep now m).0 ≡ some s
    unfolding sweep lookup
    sweep-lookup now [] s l h = h
    sweep-lookup now ((other, t) ∷ rest) s l h = elim (Bool-cases (str_eq other id)) [
      | inl same ↦
          let found : t ≡ s = cc (rw same at h) in
          let stays : ltb t.expires_at now ≡ false = rw found (le→ltb_false s.expires_at now l) in
          rw (stays, same) (ap some found)
      | inr differs ↦
          let ih = sweep-lookup now rest s l (rw differs at h) in
          elim (Bool-cases (ltb t.expires_at now)) [
            | inl swept ↦ rw swept ih
            | inr stays ↦ rw (stays, differs) ih
          ]
    ]

    -- The session is stored, and tracked.
    abbrev pub Holds : ℕ → Dict (ConsensusSession F) → Type 0
    Holds k m = (s : ConsensusSession F) × (lookup id m ≡ some s) × IsTracked config expiry k s

    other-Holds :
        (k : ℕ) (other : String) (s : ConsensusSession F) (m : Dict (ConsensusSession F))
        → str_eq other id ≡ false
        → Holds k m
        → Holds k (insert other s m)
    other-Holds k other s m differs (t, l, tracked) =
        (t, rw (lookup-insert other id s m, differs) l, tracked)

    -- A session gives way to the one that an operation on it returns.
    insert-Holds :
        (k : ℕ) (other : String) (old new : ConsensusSession F) (m : Dict (ConsensusSession F))
        → lookup other m ≡ some old
        → (IsSound old → IsSound new)
        → Advances old new
        → Holds k m
        → Holds k (insert other new m)
    insert-Holds k other old new m g keeps a (t, l, tracked) = elim (Bool-cases (str_eq other id)) [
      | inr differs ↦ other-Holds k other new m differs (t, l, tracked)
      | inl e ↦
          let same : t ≡ old = cc (l, g, (eq_iff other id).0 e) in
          let was : IsTracked config expiry k old =
            subst (IsTracked config expiry k) same tracked in
          (new, rw (lookup-insert other id new m, e), advance k old new (keeps was.sound) a was)
    ]

    handle_event-Holds :
        (k : ℕ) (e : Event F) (cm : ConsensusManager F)
        → IsOther id expiry e
        → Holds k cm.sessions
        → Holds k (handle_event e cm).sessions
    unfolding handle_event cleanup_expired_sessions
    handle_event-Holds k (starts o other topic question participants c) cm differs h =
        elim (start-sessions o other topic question participants c cm) [
          | inl e ↦ rw e h
          | inr (e, room) ↦ rw e (other-Holds k other _ cm.sessions (str_ne other id differs) h)
        ]
    handle_event-Holds k (submits o other name value confidence reasoning) cm l h =
        elim (submit-sessions o other name value confidence reasoning cm) [
          | inl e ↦ rw e h
          | inr (s, r, g, e) ↦ rw e (
              insert-Holds k other s (respond o r s).0.0 cm.sessions g (respond-IsSound o r s)
                (respond-Advances o r s) h)
        ]
    handle_event-Holds k (fires o other number) cm l h = elim (timeout-sessions o other number cm) [
      | inl e ↦ rw e h
      | inr (s, g, e) ↦ rw e (
          insert-Holds k other s (timed_out o number s).0 cm.sessions g
            (timed_out-IsSound o number s) (timed_out-Advances o number s) h)
    ]
    handle_event-Holds k (cleans now) cm l (s, g, t) =
        (s, sweep-lookup now cm.sessions s (rw t.same_expiry l) g, t)

    handle_events-Holds :
        (k : ℕ) (es : List (Event F)) (cm : ConsensusManager F)
        → All (IsOther id expiry) es
        → Holds k cm.sessions
        → Holds k (handle_events es cm).sessions
    unfolding handle_events
    handle_events-Holds k [] cm l h = h
    handle_events-Holds k (e ∷ es) cm l h =
        handle_events-Holds k es (handle_event e cm) l.1 (handle_event-Holds k e cm l.0 h)

    -- The timer of round `k + 1` moves the session on.
    fires-Holds :
        (k : ℕ) (o : Outside F) (cm : ConsensusManager F)
        → Holds k cm.sessions
        → Holds (suc k) (round_timeout_handler o id (suc k) cm).sessions
    unfolding round_timeout_handler
    fires-Holds k o cm (s, g, t) =
        let s' = (timed_out o (suc k) s).0 in
        let a = timed_out-Advances o (suc k) s in
        rw (g, round_timeout_handler)
          (
            s',
            rw (lookup-insert id id s' cm.sessions, (eq_iff id id).1 refl),
            record {
              sound = timed_out-IsSound o (suc k) s t.sound;
              same_config = a.1 ∙ t.same_config;
              same_expiry = a.2 ∙ t.same_expiry;
              beyond = timed_out-IsBeyond o k s t.sound t.beyond;
            },
          )

    pub with_timers-Holds :
        (k : ℕ) (parts : List (List (Event F) × Outside F)) (cm : ConsensusManager F)
        → AllOther id expiry parts
        → Holds k cm.sessions
        → Holds (k + length parts) (handle_events (with_timers id (suc k) parts) cm).sessions
    unfolding handle_events handle_event
    with_timers-Holds k [] cm l h = rw (add-zero k) h
    with_timers-Holds k ((before, o) ∷ later) cm l h =
        let cm' = handle_events before cm in
        let moved = fires-Holds k o cm' (handle_events-Holds k before cm l.0 h) in
        let ih =
          with_timers-Holds (suc k) later (round_timeout_handler o id (suc k) cm') l.1 moved in
        rw
          (handle_events-append before (fires o id (suc k) ∷ with_timers id (suc (suc k)) later) cm)
          (subst
            (λ n.
              Holds n
                (handle_events (with_timers id (suc (suc k)) later)
                  (round_timeout_handler o id (suc k) cm')).sessions)
            (omega arith) ih)

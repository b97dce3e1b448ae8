-- ===== src/Orchestrator/Consensus/Submits.antt =====
-- internal/orchestrator/consensus.go: when a response completes a round of a Delphi session.
use cryptofunk.Prelude.{
  ◌-◌, ◌==◌, String, true, false, ◌≡◌, inl, inr, Bool-cases, Option, some, List, [], if◌then◌else◌,
  length, set, get_elem?, ok, arith,
}
use cryptofunk.Prelude.Dict.{Entries-lookup, lookup}
use cryptofunk.Prelude.Floats.{Floats}
use cryptofunk.Orchestrator.Consensus.{
  Response, ConsensusRound, ConsensusConfig, ConsensusSession, ConsensusManager, ConsensusEffect,
  is_active_status, new_consensus_manager_with_config,
}
use cryptofunk.Orchestrator.Consensus.Rounds.{
  Outside, with_response, is_participant, complete_delphi_round, respond,
}
use cryptofunk.Orchestrator.Consensus.Delphi.{submit_delphi_response, response_of, put_session}
use cryptofunk.Orchestrator.Consensus.Shape.{active_OpenEnded, last_round}
use cryptofunk.Orchestrator.Consensus.Run.{Event, handle_events, handle_events-IsSound}
use cryptofunk.Orchestrator.Consensus.Answers.{
  Distinct, all_answered, full-eq-all_answered, answers-insert, length-lt_repeated,
}
use cryptofunk.Orchestrator.Consensus.Roster.{
  All-get_elem?, IsAnswered, IsRoster, handle_events-IsRoster,
}

module _ {F : Type 0} where
  -- The session with a response recorded, and no more.
  abbrev pub recorded : Response F → ConsensusRound F → ConsensusSession F → ConsensusSession F
  recorded r x s = record s { rounds = set s.rounds (length s.rounds - 1) (with_response r x) }

  -- The session with a response recorded that closes the round.
  abbrev pub closed_by :
      Outside F
      → Response F
      → ConsensusRound F
      → ConsensusSession F
      → ConsensusSession F × List (ConsensusEffect F)
  closed_by o r x s =
      complete_delphi_round o s.config (length s.rounds - 1) (with_response r x) (recorded r x s)

  -- A participant's response to an active session.
  respond_open :
      (o : Outside F) (r : Response F) (s : ConsensusSession F) (x : ConsensusRound F)
      → is_active_status s.status ≡ true
      → get_elem? s.rounds (length s.rounds - 1) ≡ some x
      → is_participant r.agent_name s.participants ≡ true
      → respond o r s ≡ (
        if length (with_response r x).responses == length s.participants
            then closed_by o r x s
            else (recorded r x s, []),
        ok tt,
      )
  unfolding respond
  respond_open o r s x e g p =
      elim (Bool-cases (length (with_response r x).responses == length s.participants)) [
        | inl full ↦ rw (e, g, p, full)
        | inr waiting ↦ rw (e, g, p, waiting)
      ]

  module _ (f : Floats F) (initial : Option (ConsensusConfig F)) (es : List (Event F))
      (id : String) where
    abbrev reached : ConsensusManager F
    reached = handle_events es (new_consensus_manager_with_config f initial)

    reached-IsRoster : {s : ConsensusSession F} → lookup id reached.sessions ≡ some s → IsRoster s
    reached-IsRoster {s} l =
        Entries-lookup (λ id s. IsRoster s) id _
          (handle_events-IsRoster es (new_consensus_manager_with_config f initial)
            (unfold new_consensus_manager_with_config in tt))
          l

    -- After any calls and timers in any order, when a participant of an active session responds and
    -- no participant is named twice: the call succeeds, and the response is recorded in the last
    -- round, which is then completed exactly if every participant has answered it; nothing else is
    -- stored.
    pub submit-all_answered :
        {s : ConsensusSession F} (o : Outside F) (name : String) (value confidence : F)
        (reasoning : String)
        → lookup id reached.sessions ≡ some s
        → is_active_status s.status ≡ true
        → Distinct s.participants
        → is_participant name s.participants ≡ true
        → let r = response_of o name value confidence reasoning in
          (x : ConsensusRound F) × (get_elem? s.rounds (length s.rounds - 1) ≡ some x)
          × (submit_delphi_response o id name value confidence reasoning reached ≡ (
            put_session id
                (if all_answered s.participants (with_response r x).responses
                  then closed_by o r x s
                  else (recorded r x s, []))
                reached,
            ok tt,
          ))
    unfolding submit_delphi_response
    submit-all_answered {s} o name value confidence reasoning l e d p =
        let r = response_of o name value confidence reasoning in
        let ((done, x, same, _, _, _, _), _) =
          active_OpenEnded s (handle_events-IsSound f initial es id l) e in
        let (_, g) = last_round s.rounds done x same in
        let a = All-get_elem? (IsAnswered s.participants) s.rounds _ (reached-IsRoster l) g in
        let a' = answers-insert s.participants name r x.responses p a in
        let full = full-eq-all_answered s.participants (with_response r x).responses d a'.0 a'.1 in
        (x, g, rw (l, submit_delphi_response) (rw (respond_open o r s x e g p) (rw full)))

    -- After any calls and timers in any order, when a participant of an active session responds
    -- whose participants name one twice: the response is recorded and the round stays open, whoever
    -- has answered.
    pub submit-repeated :
        {s : ConsensusSession F} (o : Outside F) (name : String) (value confidence : F)
        (reasoning : String)
        → lookup id reached.sessions ≡ some s
        → is_active_status s.status ≡ true
        → ¬ Distinct s.participants
        → is_participant name s.participants ≡ true
        → let r = response_of o name value confidence reasoning in
          (x : ConsensusRound F) × (get_elem? s.rounds (length s.rounds - 1) ≡ some x)
          × (submit_delphi_response o id name value confidence reasoning reached
              ≡ (put_session id (recorded r x s, []) reached, ok tt))
    unfolding submit_delphi_response
    submit-repeated {s} o name value confidence reasoning l e d p =
        let r = response_of o name value confidence reasoning in
        let ((done, x, same, _, _, _, _), _) =
          active_OpenEnded s (handle_events-IsSound f initial es id l) e in
        let (_, g) = last_round s.rounds done x same in
        let a = All-get_elem? (IsAnswered s.participants) s.rounds _ (reached-IsRoster l) g in
        let a' = answers-insert s.participants name r x.responses p a in
        let less = length-lt_repeated s.participants (with_response r x).responses d a'.0 a'.1 in
        let waits : (length (with_response r x).responses == length s.participants) ≡ false =
          ground (arith, less) in
        (x, g, rw (l, submit_delphi_response) (rw (respond_open o r s x e g p) (rw waits)))

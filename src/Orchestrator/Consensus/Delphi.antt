-- ===== src/Orchestrator/Consensus/Delphi.antt =====
-- internal/orchestrator/consensus.go: the manager of the Delphi sessions. A timer that fires is an
-- event of its own, `round_timeout_handler`. `StartDelphiConsensus` has two parts, its check of the limits
-- and the start of its first round.
use cryptofunk.Prelude.{
  ℕ, suc, ◌+◌, leb, ltb, String, Bool, true, false, Option, none, some, List, [], ◌∷◌, ◌++◌,
  if◌then◌else◌, length, Result, ok, err,
}
use cryptofunk.Prelude.Dict.{Dict, lookup, insert}
use cryptofunk.Orchestrator.Consensus.{
  Response, ConsensusConfig, ConsensusSession, ConsensusManager, ConsensusEffect, ConsensusStatus,
  consensus_pending, consensus_active, consensus_failed, consensus_expired, delphi_method,
  ConsensusError, max_active_sessions_reached, too_many_participants, insufficient_participants,
  session_not_found,
}
use cryptofunk.Orchestrator.Consensus.Rounds.{
  counted, created, first_updated, expires, responded, Outside, start_delphi_round, respond,
  timed_out,
}

-- Neither failed nor expired.
abbrev pub is_live : ConsensusStatus → Bool
is_live consensus_failed = false
is_live consensus_expired = false
is_live _ = true

module _ {F : Type 0} where
  abbrev pub put_session :
      String
      → ConsensusSession F × List (ConsensusEffect F)
      → ConsensusManager F
      → ConsensusManager F
  put_session id (s, sent) cm = record cm {
    sessions = insert id s cm.sessions;
    effects = cm.effects ++ sent;
  }

  abbrev pub response_of : Outside F → String → F → F → String → Response F
  response_of o name value confidence reasoning = record {
    agent_name = name;
    value = value;
    confidence = confidence;
    reasoning = reasoning;
    timestamp = o.clock responded;
  }

  unfoldable pub submit_delphi_response :
      Outside F
      → String
      → String
      → F
      → F
      → String
      → ConsensusManager F
      → ConsensusManager F × Result ConsensusError (Unit {0})
  unfolding respond
  submit_delphi_response o id name value confidence reasoning cm = elim (lookup id cm.sessions) [
    | none ↦ (cm, err (session_not_found id))
    | some s ↦
        let r = response_of o name value confidence reasoning in
        let (out, result) = respond o r s in (put_session id out cm, result)
  ]

  unfoldable pub round_timeout_handler :
      Outside F → String → ℕ → ConsensusManager F → ConsensusManager F
  unfolding timed_out
  round_timeout_handler o id number cm = elim (lookup id cm.sessions) [
    | none ↦ cm
    | some s ↦ put_session id (timed_out o number s) cm
  ]

  abbrev pub is_counted : ℕ → ConsensusSession F → Bool
  is_counted now s = if is_live s.status then ltb now s.expires_at else false

  unfoldable pub count_active_sessions : ℕ → Dict (ConsensusSession F) → ℕ
  count_active_sessions now [] = 0
  count_active_sessions now ((id, s) ∷ rest) =
      let others = count_active_sessions now rest in if is_counted now s then suc others else others

  abbrev pub new_delphi_session :
      Outside F → String → String → String → List String → ConsensusConfig F → ConsensusSession F
  new_delphi_session o id topic question participants config = record {
    id = id;
    method = delphi_method;
    topic = topic;
    question = question;
    participants = participants;
    rounds = [];
    status = consensus_pending;
    result = none;
    config = config;
    created_at = o.clock created;
    updated_at = o.clock first_updated;
    expires_at = o.clock expires + config.session_ttl;
  }

  -- The checks at the start of `StartDelphiConsensus`: the error that it returns, if it returns one.
  unfoldable pub check_start :
      Outside F → List String → ConsensusConfig F → ConsensusManager F → Option ConsensusError
  unfolding count_active_sessions
  check_start o participants config cm =
      let active = count_active_sessions (o.clock counted) cm.sessions in
      let count = length participants in
      if leb cm.config.max_active_sessions active
      then some (max_active_sessions_reached active cm.config.max_active_sessions)
      else if ltb cm.config.max_participants count
      then some (too_many_participants count cm.config.max_participants)
      else if ltb count config.min_participants
      then some (insufficient_participants count config.min_participants)
      else none

  -- The rest of it, which takes the lock again, where `id` is the fresh identifier of the session.
  abbrev pub open_session :
      Outside F
      → String
      → String
      → String
      → List String
      → ConsensusConfig F
      → ConsensusManager F
      → ConsensusManager F × ConsensusSession F
  open_session o id topic question participants config cm =
      let out =
        start_delphi_round o config (new_delphi_session o id topic question participants config) in
      (put_session id out cm, out.0)

  -- `StartDelphiConsensus` when no other call comes between its two parts.
  unfoldable pub start_delphi_consensus :
      Outside F
      → String
      → String
      → String
      → List String
      → ConsensusConfig F
      → ConsensusManager F
      → ConsensusManager F × Result ConsensusError (ConsensusSession F)
  unfolding check_start start_delphi_round
  start_delphi_consensus o id topic question participants config cm =
      elim (check_start o participants config cm) [
        | some e ↦ (cm, err e)
        | none ↦
            let (cm', session) = open_session o id topic question participants config cm in
            (cm', ok session)
      ]

  abbrev pub expire : ConsensusSession F → ConsensusSession F
  expire s = elim s.status [
    | consensus_active ↦ record s { status = consensus_expired }
    | consensus_pending ↦ record s { status = consensus_expired }
    | _ ↦ s
  ]

  -- The sessions that stay, and those that go.
  unfoldable pub sweep :
      ℕ → Dict (ConsensusSession F) → Dict (ConsensusSession F) × List (ConsensusSession F)
  sweep now [] = ([], [])
  sweep now ((id, s) ∷ rest) =
      let (stay, gone) = sweep now rest in
      if ltb s.expires_at now then (stay, expire s ∷ gone) else ((id, s) ∷ stay, gone)

  -- `CleanupExpiredSessions`, with the sessions that it removed; their number is what it returns.
  unfoldable pub cleanup_expired_sessions :
      ℕ → ConsensusManager F → ConsensusManager F × List (ConsensusSession F) × ℕ
  unfolding sweep
  cleanup_expired_sessions now cm =
      let (stay, gone) = sweep now cm.sessions in (record cm { sessions = stay }, gone, length gone)

  unfoldable pub get_session :
      String → ConsensusManager F → Result ConsensusError (ConsensusSession F)
  get_session id cm = elim (lookup id cm.sessions) [
    | none ↦ err (session_not_found id)
    | some s ↦ ok s
  ]

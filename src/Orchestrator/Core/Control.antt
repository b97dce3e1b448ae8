-- ===== src/Orchestrator/Core/Control.antt =====
-- internal/orchestrator/orchestrator.go: `Pause` and `Resume`, and the requests for
-- them. Whether the database takes a write is
-- an argument; the broadcast is tried again by `publishWithRetry`, and whether it gets through only
-- goes to the log.
use cryptofunk.Prelude.{
  Bool, true, false, String, str_eq, inl, inr, Bool-cases, Option, none, some, [], ◌∷◌, ◌++◌,
  if◌then◌else◌, Result, ok, err,
}
use cryptofunk.Orchestrator.Core.{Broadcast, trading_paused, trading_resumed, Orchestrator}

pub data ControlError : Type 0 where
  already_paused not_paused database_error : ControlError

module _ {F V : Type 0} where
  -- The flag and what the database holds are set, and the agents are told.
  abbrev pub set_paused : Bool → Option Bool → Broadcast F → Orchestrator F V → Orchestrator F V
  set_paused flag stored news o = record o {
    paused = flag;
    stored_paused = stored;
    broadcasts = o.broadcasts ++ news ∷ [];
  }

  unfoldable pub pause : Bool → Orchestrator F V → Orchestrator F V × Result ControlError (Unit {0})
  pause write_done o = if o.paused then (o, err already_paused) else elim o.stored_paused [
    | none ↦ (set_paused true none trading_paused o, ok tt)
    | some _ ↦
        if write_done
        then (set_paused true (some true) trading_paused o, ok tt)
        else (o, err database_error)
  ]

  unfoldable pub resume :
      Bool → Orchestrator F V → Orchestrator F V × Result ControlError (Unit {0})
  resume write_done o =
      if o.paused
      then elim o.stored_paused [
        | none ↦ (set_paused false none trading_resumed o, ok tt)
        | some _ ↦
            if write_done
            then (set_paused false (some false) trading_resumed o, ok tt)
            else (o, err database_error)
      ]
      else (o, err not_paused)

-- What a request for a pause or a resumption is control_answer.
pub data ControlResponse : Type 0 where
  method_not_allowed pause_accepted resume_accepted : ControlResponse
  bad_request : ControlError → ControlResponse

abbrev pub response_to : ControlResponse → Result ControlError (Unit {0}) → ControlResponse
response_to accepted (ok _) = accepted
response_to accepted (err e) = bad_request e

module _ {F V : Type 0} where
  -- The answer of a request by a method, with its effect.
  abbrev pub control_answer :
      ControlResponse
      → Orchestrator F V × Result ControlError (Unit {0})
      → Orchestrator F V × ControlResponse
  control_answer accepted out = (out.0, response_to accepted out.1)

  unfoldable pub handle_pause_request :
      String → Bool → Orchestrator F V → Orchestrator F V × ControlResponse
  unfolding pause
  handle_pause_request method write_done o =
      if str_eq method "POST"
      then control_answer pause_accepted (pause write_done o)
      else (o, method_not_allowed)

  unfoldable pub handle_resume_request :
      String → Bool → Orchestrator F V → Orchestrator F V × ControlResponse
  unfolding resume
  handle_resume_request method write_done o =
      if str_eq method "POST"
      then control_answer resume_accepted (resume write_done o)
      else (o, method_not_allowed)

  pub pause_request-cases :
      (P : Orchestrator F V → Type 0) (method : String) (write_done : Bool) (o : Orchestrator F V)
      → P o
      → P (pause write_done o).0
      → P (handle_pause_request method write_done o).0
  unfolding handle_pause_request
  pause_request-cases P method write_done o same done = elim (Bool-cases (str_eq method "POST")) [
    | inl e ↦ rw e done
    | inr e ↦ rw e same
  ]

  pub resume_request-cases :
      (P : Orchestrator F V → Type 0) (method : String) (write_done : Bool) (o : Orchestrator F V)
      → P o
      → P (resume write_done o).0
      → P (handle_resume_request method write_done o).0
  unfolding handle_resume_request
  resume_request-cases P method write_done o same done = elim (Bool-cases (str_eq method "POST")) [
    | inl e ↦ rw e done
    | inr e ↦ rw e same
  ]

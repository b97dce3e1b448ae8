-- ===== src/Orchestrator/Consensus/Examples.antt =====
-- Concrete sessions and bids for internal/orchestrator/consensus.go, with whole numbers for floats.
use cryptofunk.Prelude.{
  ◌<◌, ℕ, ◌+◌, ◌-◌, ◌*◌, ◌/◌, ltb, leb, ◌==◌, String, true, false, ◌≡◌, refl, pos, none, some, List,
  [], ◌∷◌, ◌++◌, if◌then◌else◌, length, get_elem?, arith, ok,
}
use mathlib.Core.List.{map}
use cryptofunk.Prelude.Dict.{insert, lookup}
use cryptofunk.Prelude.Floats.{Floats}
use cryptofunk.Orchestrator.Consensus.{
  ConsensusConfig, ConsensusSession, ConsensusManager, ConsensusRound,
  new_consensus_manager_with_config,
}
use cryptofunk.Orchestrator.Consensus.Rounds.{Outside, with_response, start_delphi_round}
use cryptofunk.Orchestrator.Consensus.Delphi.{
  check_start, open_session, response_of, put_session, count_active_sessions,
  start_delphi_consensus, submit_delphi_response,
}
use cryptofunk.Orchestrator.Consensus.Shape.{IsSound}
use cryptofunk.Orchestrator.Consensus.Run.{
  Event, starts, submits, cleans, handle_event, handle_events, handle_events-IsSound, first_session,
}
use cryptofunk.Orchestrator.Consensus.Tracked.{with_timers, HasEnded}
use cryptofunk.Orchestrator.Consensus.Ends.{delphi-HasEnded}
use cryptofunk.Orchestrator.Consensus.Answers.{all_answered}
use cryptofunk.Orchestrator.Consensus.Submits.{
  recorded, closed_by, submit-all_answered, submit-repeated,
}
use cryptofunk.Orchestrator.Consensus.Capacity.{
  Overlap, OverlapSteps, here, next, passes, opens, started, active-lt,
}
use cryptofunk.Orchestrator.Consensus.Contract.{
  Bid, Contract, ContractNetTask, ContractEffect, award_sent, announced, bid_rejected,
  contract_posted, Market, score_of, scored_from, select_best_bid, with_id, announcements,
  rejections, award, award_to, announce_and_award, start_contract_net,
}
use cryptofunk.Orchestrator.Consensus.Award.{
  exchanged, IsBest, IsContract, bids_of_others, start_contract_net-IsBest,
}

-- Whole numbers, on which 0.8 is 1 and the other fractions are their numerators.
abbrev floats : Floats ℕ
floats = record {
  of_nat = λ n. n;
  ratio = λ m n. if m == 8 then 1 else m;
  add = λ a b. a + b;
  sub = λ a b. a - b;
  mul = λ a b. a * b;
  div = λ a b. a / b;
  sqrt = λ a. a;
  abs = λ a. a;
  max = λ a b. if ltb a b then b else a;
  min = λ a b. if ltb a b then a else b;
  lt = ltb;
  le = leb;
  eq = ◌==◌;
  sort = λ l. l;
}

abbrev outside : Outside ℕ
outside = record {
  floats = floats;
  clock = λ moment. 5;
  feedback_text = λ mean median deviation percent. "results";
}

abbrev config : ConsensusConfig ℕ
config = record {
  max_rounds = 2;
  convergence_threshold = 1;
  round_timeout = 30;
  session_ttl = 300;
  min_participants = 1;
  max_active_sessions = 1;
  max_participants = 3;
  max_concurrent_timeouts = 10;
}

abbrev manager : ConsensusManager ℕ
manager = record { config = config; sessions = []; effects = [] }

abbrev session : List String → ConsensusSession ℕ
session participants = first_session outside "s1" "btc" "where to?" participants config

abbrev pair : List String
pair = "trend" ∷ "risk" ∷ []

abbrev twice : List String
twice = "trend" ∷ "trend" ∷ []

abbrev start : List String → Event ℕ
start participants = starts outside "s1" "btc" "where to?" participants config

abbrev parts : List (List (Event ℕ) × Outside ℕ)
parts = (submits outside "s1" "trend" 7 1 "up" ∷ [], outside) ∷ (cleans 9 ∷ [], outside) ∷ []

abbrev started_manager : ConsensusManager ℕ
started_manager = (start_delphi_consensus outside "s1" "btc" "where to?" pair config manager).0

delphi-HasEnded_example :
    (s' : ConsensusSession ℕ) × (lookup "s1"
        (handle_events (with_timers "s1" 1 parts) started_manager).sessions
      ≡ some s')
    × HasEnded s'
unfolding start_delphi_consensus check_start start_delphi_round count_active_sessions
delphi-HasEnded_example =
    delphi-HasEnded outside "s1" "btc" "where to?" pair config manager started_manager
      (session pair) parts refl ((tt, tt), (((omega arith), tt), tt)) (omega arith)

abbrev events : List String → List (Event ℕ)
events participants = start participants ∷ []

handle_events-IsSound_example : IsSound (session pair)
unfolding handle_events handle_event start_delphi_consensus check_start start_delphi_round
    count_active_sessions new_consensus_manager_with_config insert lookup
handle_events-IsSound_example = handle_events-IsSound floats (some config) (events pair) "s1" refl

submit-all_answered_example :
    let reached =
      handle_events (events pair) (new_consensus_manager_with_config floats (some config)) in
    let s = session pair in
    let r = response_of outside "risk" 7 1 "up" in
    (x : ConsensusRound ℕ) × (get_elem? s.rounds (length s.rounds - 1) ≡ some x)
    × (submit_delphi_response outside "s1" "risk" 7 1 "up" reached ≡ (
      put_session "s1"
          (if all_answered s.participants (with_response r x).responses
            then closed_by outside r x s
            else (recorded r x s, []))
          reached,
      ok tt,
    ))
unfolding handle_events handle_event start_delphi_consensus check_start start_delphi_round
    count_active_sessions new_consensus_manager_with_config insert lookup
submit-all_answered_example =
    submit-all_answered floats (some config) (events pair) "s1" outside "risk" 7 1 "up" refl refl
      (refl, (refl, tt)) refl

submit-repeated_example :
    let reached =
      handle_events (events twice) (new_consensus_manager_with_config floats (some config)) in
    let s = session twice in
    let r = response_of outside "trend" 7 1 "up" in
    (x : ConsensusRound ℕ) × (get_elem? s.rounds (length s.rounds - 1) ≡ some x)
    × (submit_delphi_response outside "s1" "trend" 7 1 "up" reached
        ≡ (put_session "s1" (recorded r x s, []) reached, ok tt))
unfolding handle_events handle_event start_delphi_consensus check_start start_delphi_round
    count_active_sessions new_consensus_manager_with_config insert lookup
submit-repeated_example =
    submit-repeated floats (some config) (events twice) "s1" outside "trend" 7 1 "up" refl refl
      (λ d. cc d.0) refl

abbrev empty_manager : Overlap ℕ
empty_manager = started floats (some config)

-- Two calls pass the check of the limit of one session before either starts its session.
abbrev one_checked : Overlap ℕ
one_checked = record empty_manager { starting = 1; now = 5 }

abbrev two_checked : Overlap ℕ
two_checked = record empty_manager { starting = 2; now = 5 }

abbrev first_opened : Overlap ℕ
first_opened = record two_checked {
  manager = (open_session outside "s1" "btc" "where to?" pair config empty_manager.manager).0;
  starting = 1;
}

abbrev both_opened : Overlap ℕ
both_opened = record first_opened {
  manager = (open_session outside "s2" "eth" "buy?" pair config first_opened.manager).0;
  starting = 0;
}

two_starts : OverlapSteps 2 empty_manager both_opened
unfolding check_start count_active_sessions new_consensus_manager_with_config
two_starts =
    next
      (next
        (next (next here (passes outside pair config (omega arith) refl refl) (omega arith))
          (passes outside pair config (omega arith) refl refl) (omega arith))
        (opens outside "s1" "btc" "where to?" pair config 1 refl refl) (omega arith))
      (opens outside "s2" "eth" "buy?" pair config 0 refl refl) (omega arith)

active-lt_example : count_active_sessions 8 both_opened.manager.sessions < 3
active-lt_example =
    active-lt floats (some config) 2 8 both_opened (omega arith) two_starts (omega arith)

two_active : count_active_sessions 8 both_opened.manager.sessions ≡ 2
unfolding count_active_sessions start_delphi_round insert new_consensus_manager_with_config
two_active = refl

abbrev task : ContractNetTask ℕ
task = record {
  id = none;
  description = "rebalance";
  requirements = 0;
  deadline = 10;
  priority = pos 1;
  metadata = 0;
}

abbrev bid_of : String → ℕ → Bid ℕ ℕ
bid_of name quality = record {
  task_id = "t1";
  agent_name = name;
  cost = 2;
  quality = quality;
  deadline = 20;
  capabilities = 0;
  reasoning = "";
  timestamp = 3;
}

abbrev bids : List (Bid ℕ ℕ)
bids = bid_of "slow" 1 ∷ bid_of "quick" 9 ∷ []

-- Sorting a list of two by falling score.
abbrev sort_two : List (Bid ℕ ℕ × ℕ) → List (Bid ℕ ℕ × ℕ)
sort_two [] = []
sort_two (p ∷ []) = p ∷ []
sort_two (p ∷ q ∷ ps) = if ltb p.1 q.1 then q ∷ p ∷ ps else p ∷ q ∷ ps

abbrev market : Market ℕ ℕ
market = record {
  floats = floats;
  seconds = λ t. t;
  sort_by_score = sort_two;
  new_task_id = "t1";
  new_contract_id = "c1";
  now = 4;
  award_goes_out = true;
  bid_is_encoded = true;
  bid_goes_out = true;
}

abbrev awarded : Contract ℕ ℕ
awarded = award market task (bid_of "quick" 9)

abbrev sent : List (ContractEffect ℕ ℕ)
sent = (start_contract_net market config task ("slow" ∷ "quick" ∷ []) bids).0

ltb_irrefl : (x : ℕ) → ltb x x ≡ false
ltb_irrefl x = ground arith

start_contract_net-IsBest_example :
    (best : Bid ℕ ℕ) × IsBest market (with_id market task) bids best
    × IsContract market task best awarded
    × (sent
        ≡ map (λ name. announced name (with_id market task)) ("slow" ∷ "quick" ∷ [])
          ++ (award_sent best.agent_name awarded
              ∷ (map
                    (λ b. bid_rejected b.agent_name awarded.task_id)
                    (bids_of_others best.agent_name bids)
                  ++ contract_posted awarded ∷ [])))
unfolding start_contract_net select_best_bid announce_and_award award_to announcements rejections
    scored_from score_of
start_contract_net-IsBest_example =
    start_contract_net-IsBest market config task ("slow" ∷ "quick" ∷ []) bids sent awarded
      ltb_irrefl (exchanged _ _, ((refl, tt), (tt, tt))) refl

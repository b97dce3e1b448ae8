-- ===== src/Orchestrator/Consensus/Contract.antt =====
-- internal/orchestrator/consensus.go: the contract net. The bids that `collectBids` gathers from
-- the blackboard until its timer fires are an argument; so is whether the bus takes the message to
-- the winner. `V` stands for requirements, capabilities and metadata, which are only carried.
use cryptofunk.Prelude.{
  ℕ, ℤ, ◌-◌, ◌==◌, ltb, String, Bool, ◌||◌, Option, none, some, List, [], ◌∷◌, ◌++◌, if◌then◌else◌,
  length, str_eq, Result, ok, err,
}
use cryptofunk.Prelude.Floats.{Floats}
use cryptofunk.Orchestrator.Consensus.{ConsensusConfig}

-- The identifier is none for `uuid.Nil`.
pub record ContractNetTask (V : Type 0) : Type 0 where
  pub id : Option String
  pub description : String
  pub requirements : V
  pub deadline : ℕ
  pub priority : ℤ
  pub metadata : V

pub record Bid (F V : Type 0) : Type 0 where
  pub task_id : String
  pub agent_name : String
  pub cost : F
  pub quality : F
  pub deadline : ℕ
  pub capabilities : V
  pub reasoning : String
  pub timestamp : ℕ

pub data ContractStatus : Type 0 where
  contract_awarded contract_in_progress contract_completed : ContractStatus
  contract_failed contract_cancelled : ContractStatus

-- The result, the time of completion and the metadata are empty when a contract is awarded.
pub record Contract (F V : Type 0) : Type 0 where
  pub id : String
  pub task_id : String
  pub task : ContractNetTask V
  pub contractor : String
  pub bid : Bid F V
  pub status : ContractStatus
  pub started_at : ℕ

pub data ContractError : Type 0 where
  no_eligible_agents : ContractError
  too_many_eligible_agents : ℕ → ℕ → ContractError
  no_bids_received award_not_sent : ContractError
  agent_name_required quality_out_of_range : ContractError
  bid_not_encoded bid_not_posted : ContractError

pub data ContractEffect (F V : Type 0) : Type 0 where
  announced : String → ContractNetTask V → ContractEffect F V
  award_sent : String → Contract F V → ContractEffect F V
  bid_rejected : String → String → ContractEffect F V
  contract_posted : Contract F V → ContractEffect F V
  bid_posted : Bid F V → ContractEffect F V

-- What the code takes from outside: the floats, `Duration.Seconds`, `sort.Slice` by falling score,
-- fresh identifiers of a task and a contract, the clock, and whether messages go out.
pub record Market (F V : Type 0) : Type 0 where
  pub floats : Floats F
  pub seconds : ℕ → F
  pub sort_by_score : List (Bid F V × F) → List (Bid F V × F)
  pub new_task_id : String
  pub new_contract_id : String
  pub now : ℕ
  pub award_goes_out : Bool
  pub bid_is_encoded : Bool
  pub bid_goes_out : Bool

module _ {F V : Type 0} where
  abbrev pub max_cost_from : Floats F → F → List (Bid F V) → F
  max_cost_from f most [] = most
  max_cost_from f most (b ∷ bs) = max_cost_from f (if f.lt most b.cost then b.cost else most) bs

  abbrev pub cost_score : Floats F → List (Bid F V) → Bid F V → F
  cost_score f bids bid =
      let most = max_cost_from f (f.of_nat 0) bids in
      if f.lt (f.of_nat 0) most then f.sub (f.of_nat 1) (f.div bid.cost most) else f.of_nat 1

  abbrev pub deadline_score : Market F V → ContractNetTask V → Bid F V → F
  deadline_score w task bid =
      if ltb bid.deadline task.deadline
      then w.floats.min (w.floats.of_nat 1)
          (w.floats.div (w.seconds (task.deadline - bid.deadline)) (w.floats.of_nat 3600))
      else w.floats.of_nat 0

  -- cost 30%, quality 50%, deadline 20%
  unfoldable pub score_of : Market F V → ContractNetTask V → List (Bid F V) → Bid F V → F
  score_of w task bids bid =
      let f = w.floats in
      f.add
        (f.add (f.mul (cost_score f bids bid) (f.ratio 3 10)) (f.mul bid.quality (f.ratio 5 10)))
        (f.mul (deadline_score w task bid) (f.ratio 2 10))

  unfoldable pub scored_from :
      Market F V → ContractNetTask V → List (Bid F V) → List (Bid F V) → List (Bid F V × F)
  scored_from w task bids [] = []
  scored_from w task bids (b ∷ bs) = (b, score_of w task bids b) ∷ scored_from w task bids bs

  abbrev pub first_bid : List (Bid F V × F) → Option (Bid F V)
  first_bid [] = none
  first_bid ((b, score) ∷ rest) = some b

  unfoldable pub select_best_bid :
      Market F V → List (Bid F V) → ContractNetTask V → Option (Bid F V)
  unfolding scored_from
  select_best_bid w [] task = none
  select_best_bid w (b ∷ []) task = some b
  select_best_bid w (b ∷ c ∷ bs) task =
      first_bid (w.sort_by_score (scored_from w task (b ∷ c ∷ bs) (b ∷ c ∷ bs)))

  abbrev pub with_id : Market F V → ContractNetTask V → ContractNetTask V
  with_id w task = record task {
    id = elim task.id [ none ↦ some w.new_task_id | some id ↦ some id ];
  }

  abbrev pub id_of : Market F V → ContractNetTask V → String
  id_of w task = elim task.id [ none ↦ w.new_task_id | some id ↦ id ]

  unfoldable pub announcements : ContractNetTask V → List String → List (ContractEffect F V)
  announcements task [] = []
  announcements task (name ∷ names) = announced name task ∷ announcements task names

  -- Bids of the winner get no rejection, its other bids too.
  unfoldable pub rejections : String → String → List (Bid F V) → List (ContractEffect F V)
  rejections task_id winner [] = []
  rejections task_id winner (b ∷ bs) =
      let rest = rejections task_id winner bs in
      if str_eq b.agent_name winner then rest else bid_rejected b.agent_name task_id ∷ rest

  abbrev pub award : Market F V → ContractNetTask V → Bid F V → Contract F V
  award w task best = record {
    id = w.new_contract_id;
    task_id = id_of w task;
    task = with_id w task;
    contractor = best.agent_name;
    bid = best;
    status = contract_awarded;
    started_at = w.now;
  }

  -- The award of the contract to the best bid, and what goes out for it.
  unfoldable pub award_to :
      Market F V
      → ContractNetTask V
      → List (Bid F V)
      → Bid F V
      → List (ContractEffect F V) × Result ContractError (Contract F V)
  unfolding rejections
  award_to w task bids best =
      let contract = award w task best in
      if w.award_goes_out
      then (
        award_sent best.agent_name contract
            ∷ (rejections (id_of w task) best.agent_name bids ++ contract_posted contract ∷ []),
        ok contract,
      )
      else (award_sent best.agent_name contract ∷ [], err award_not_sent)

  -- From the announcements on.
  unfoldable pub announce_and_award :
      Market F V
      → ContractNetTask V
      → List String
      → List (Bid F V)
      → Option (Bid F V)
      → List (ContractEffect F V) × Result ContractError (Contract F V)
  unfolding announcements award_to
  announce_and_award w task eligible bids none =
      (announcements (with_id w task) eligible, err no_bids_received)
  announce_and_award w task eligible bids (some best) =
      let (sent, result) = award_to w task bids best in
      (announcements (with_id w task) eligible ++ sent, result)

  -- `StartContractNet`, with what goes out in order.
  unfoldable pub start_contract_net :
      Market F V
      → ConsensusConfig F
      → ContractNetTask V
      → List String
      → List (Bid F V)
      → List (ContractEffect F V) × Result ContractError (Contract F V)
  unfolding select_best_bid announce_and_award
  start_contract_net w config task eligible bids =
      if length eligible == 0
      then ([], err no_eligible_agents)
      else if ltb config.max_participants (length eligible)
      then ([], err (too_many_eligible_agents (length eligible) config.max_participants))
      else announce_and_award w task eligible bids (select_best_bid w bids (with_id w task))

  unfoldable pub submit_bid :
      Market F V → Bid F V → List (ContractEffect F V) × Result ContractError (Unit {0})
  submit_bid w bid =
      if str_eq bid.agent_name ""
      then ([], err agent_name_required)
      else if w.floats.lt bid.quality (w.floats.of_nat 0)
          || w.floats.lt (w.floats.of_nat 1) bid.quality
      then ([], err quality_out_of_range)
      else (let stamped = record bid { timestamp = w.now } in
          if w.bid_is_encoded
          then if w.bid_goes_out
            then (bid_posted stamped ∷ [], ok tt)
            else (bid_posted stamped ∷ [], err bid_not_posted)
          else ([], err bid_not_encoded))

-- ===== src/Orchestrator/Consensus/Award.antt =====
-- internal/orchestrator/consensus.go: the contract goes to the bid of the highest score.
use mathlib.Core.List.{map}
use cryptofunk.Prelude.{
  not, keep, str_eq, Option-cases, ltb, String, false, ◌≡◌, refl, ap, sym, ◌∙◌, subst, ◌⊎◌, inl,
  inr, Bool-cases, Option, none, some, List, [], ◌∷◌, ◌++◌, ◌==◌, length, All, ok,
}
use cryptofunk.Prelude.Floats.{Floats}
use cryptofunk.Orchestrator.Consensus.{ConsensusConfig}
use cryptofunk.Orchestrator.Consensus.Contract.{
  Bid, Contract, ContractNetTask, ContractEffect, announced, bid_rejected, contract_awarded,
  award_sent, contract_posted, Market, score_of, scored_from, first_bid, select_best_bid, with_id,
  id_of, announcements, rejections, award, award_to, announce_and_award, start_contract_net,
}

-- The same items in another order.
pub data Rearranged {A : Type 0} : List A → List A → Type 0 where
  unmoved : {xs : List A} → Rearranged xs xs
  behind : (x : A) {xs ys : List A} → Rearranged xs ys → Rearranged (x ∷ xs) (x ∷ ys)
  exchanged : (x y : A) {xs : List A} → Rearranged (x ∷ y ∷ xs) (y ∷ x ∷ xs)
  followed : {xs ys zs : List A} → Rearranged xs ys → Rearranged ys zs → Rearranged xs zs

module _ {A : Type 0} where
  abbrev pub In : A → List A → Type 0
  In x [] = ⊥
  In x (y ∷ ys) = (x ≡ y) ⊎ In x ys

  pub In-Rearranged : (x : A) {xs ys : List A} → Rearranged xs ys → In x ys → In x xs
  In-Rearranged x unmoved h = h
  In-Rearranged x (behind y r) (inl e) = inl e
  In-Rearranged x (behind y r) (inr h) = inr (In-Rearranged x r h)
  In-Rearranged x (exchanged y z) (inl e) = inr (inl e)
  In-Rearranged x (exchanged y z) (inr (inl e)) = inl e
  In-Rearranged x (exchanged y z) (inr (inr h)) = inr (inr h)
  In-Rearranged x (followed r s) h = In-Rearranged x r (In-Rearranged x s h)

  All-Rearranged : (P : A → Type 0) {xs ys : List A} → Rearranged xs ys → All P ys → All P xs
  All-Rearranged P unmoved h = h
  All-Rearranged P (behind y r) h = (h.0, All-Rearranged P r h.1)
  All-Rearranged P (exchanged y z) h = (h.1.0, (h.0, h.1.1))
  All-Rearranged P (followed r s) h = All-Rearranged P r (All-Rearranged P s h)

module _ {F V : Type 0} where
  -- No score is above one that stands before it.
  abbrev pub Falling : Floats F → List (Bid F V × F) → Type 0
  Falling f [] = Unit
  Falling f (p ∷ ps) = All (λ q. f.lt p.1 q.1 ≡ false) ps × Falling f ps

  -- What `sort.Slice` promises of a list.
  abbrev pub IsSortOf : Floats F → List (Bid F V × F) → List (Bid F V × F) → Type 0
  IsSortOf f xs ys = Rearranged xs ys × Falling f ys

  In-scored :
      (w : Market F V) (task : ContractNetTask V) (bids bs : List (Bid F V)) (p : Bid F V × F)
      → In p (scored_from w task bids bs)
      → In p.0 bs × (p.1 ≡ score_of w task bids p.0)
  unfolding scored_from
  In-scored w task bids [] p h = absurd h
  In-scored w task bids (b ∷ bs) p (inl e) =
      (inl (ap (λ q. q.0) e), subst (λ q. q.1 ≡ score_of w task bids q.0) (sym e) refl)
  In-scored w task bids (b ∷ bs) p (inr h) = let (i, s) = In-scored w task bids bs p h in (inr i, s)

  All-scored :
      (w : Market F V) (task : ContractNetTask V) (bids bs : List (Bid F V)) (P : F → Type 0)
      → All (λ q. P q.1) (scored_from w task bids bs)
      → All (λ b. P (score_of w task bids b)) bs
  unfolding scored_from
  All-scored w task bids [] P h = tt
  All-scored w task bids (b ∷ bs) P h = (h.0, All-scored w task bids bs P h.1)

  -- A bid of the list that no other of it beats.
  abbrev pub IsBest : Market F V → ContractNetTask V → List (Bid F V) → Bid F V → Type 0
  IsBest w task bids best =
      In best bids
      × All (λ b. w.floats.lt (score_of w task bids best) (score_of w task bids b) ≡ false) bids

  first-IsBest :
      (w : Market F V) (task : ContractNetTask V) (bids : List (Bid F V)) (ys : List (Bid F V × F))
      {best : Bid F V}
      → ((x : F) → w.floats.lt x x ≡ false)
      → IsSortOf w.floats (scored_from w task bids bids) ys
      → first_bid ys ≡ some best
      → IsBest w task bids best
  first-IsBest w task bids [] irrefl s e = cc
  first-IsBest w task bids (p ∷ ps) {best} irrefl (r, falling) e =
      let (among, score) = In-scored w task bids bids p (In-Rearranged p r (inl refl)) in
      let all = All-Rearranged (λ q. w.floats.lt p.1 q.1 ≡ false) r (irrefl p.1, falling.0) in
      let same : p.0 ≡ best = cc e in
      subst (IsBest w task bids) same (
        among,
        All-scored w task bids bids (λ s. w.floats.lt (score_of w task bids p.0) s ≡ false)
            (subst (λ s. All (λ q. w.floats.lt s q.1 ≡ false) (scored_from w task bids bids)) score
              all),
      )

  select_best_bid-IsBest :
      (w : Market F V) (task : ContractNetTask V) (bids : List (Bid F V)) {best : Bid F V}
      → ((x : F) → w.floats.lt x x ≡ false)
      → IsSortOf w.floats
          (scored_from w task bids bids)
          (w.sort_by_score (scored_from w task bids bids))
      → select_best_bid w bids task ≡ some best
      → IsBest w task bids best
  unfolding select_best_bid
  select_best_bid-IsBest w task [] irrefl s e = cc
  select_best_bid-IsBest w task (b ∷ []) {best} irrefl s e =
      subst (IsBest w task (b ∷ [])) (let same : b ≡ best = cc e in same) (inl refl, (irrefl _, tt))
  select_best_bid-IsBest w task (b ∷ c ∷ bs) irrefl s e =
      first-IsBest w task (b ∷ c ∷ bs)
        (w.sort_by_score (scored_from w task (b ∷ c ∷ bs) (b ∷ c ∷ bs))) irrefl s e

  award_to-ok :
      (w : Market F V) (task : ContractNetTask V) (bids : List (Bid F V)) (best : Bid F V)
      (contract : Contract F V)
      → (award_to w task bids best).1 ≡ ok contract
      → (contract ≡ award w task best)
        × ((award_to w task bids best).0
            ≡ award_sent best.agent_name contract
              ∷ (rejections (id_of w task) best.agent_name bids ++ contract_posted contract ∷ []))
  unfolding award_to
  award_to-ok w task bids best contract h = elim (Bool-cases w.award_goes_out) [
    | inr k ↦ cc (rw k at h)
    | inl k ↦
        let same : award w task best ≡ contract = cc (rw k at h) in
        (sym same, rw k (rw (← same) refl))
  ]

  announced-ok :
      (w : Market F V) (task : ContractNetTask V) (eligible : List String) (bids : List (Bid F V))
      (choice : Option (Bid F V)) (sent : List (ContractEffect F V)) (contract : Contract F V)
      → announce_and_award w task eligible bids choice ≡ (sent, ok contract)
      → (best : Bid F V) × (choice ≡ some best)
        × (contract ≡ award w task best)
        × (sent
            ≡ announcements (with_id w task) eligible
              ++ (award_sent best.agent_name contract
                  ∷ (rejections (id_of w task) best.agent_name bids
                      ++ contract_posted contract ∷ [])))
  unfolding announce_and_award
  announced-ok w task eligible bids none sent contract h = cc (ap (λ p. p.1) h)
  announced-ok w task eligible bids (some best) sent contract h =
      let (made, out) = award_to-ok w task bids best contract (ap (λ p. p.1) h) in
      (
        best,
        refl,
        made,
        sym (ap (λ p. p.0) h) ∙ ap (λ l. announcements (with_id w task) eligible ++ l) out,
      )

  start-announced :
      (w : Market F V) (config : ConsensusConfig F) (task : ContractNetTask V)
      (eligible : List String) (bids : List (Bid F V)) (sent : List (ContractEffect F V))
      (contract : Contract F V)
      → start_contract_net w config task eligible bids ≡ (sent, ok contract)
      → announce_and_award w task eligible bids (select_best_bid w bids (with_id w task))
        ≡ (sent, ok contract)
  unfolding start_contract_net
  start-announced w config task eligible bids sent contract h =
      elim (Bool-cases (length eligible == 0)) [
        | inl e ↦ cc (ap (λ p. p.1) (rw e at h))
        | inr e ↦ elim (Bool-cases (ltb config.max_participants (length eligible))) [
          | inl g ↦ cc (ap (λ p. p.1) (rw (e, g) at h))
          | inr g ↦ rw (e, g) at h
        ]
      ]

  announcements-map :
      (task : ContractNetTask V) (names : List String)
      → announcements {F = F} task names ≡ map (λ name. announced name task) names
  unfolding announcements
  announcements-map task [] = refl
  announcements-map task (name ∷ names) =
      ap (λ l. announced name task ∷ l) (announcements-map task names)

  -- The bids of the agents other than `winner`.
  abbrev pub bids_of_others : String → List (Bid F V) → List (Bid F V)
  bids_of_others winner bids = keep (λ b. not (str_eq b.agent_name winner)) bids

  rejections-map :
      (task_id winner : String) (bids : List (Bid F V))
      → rejections task_id winner bids
        ≡ map (λ b. bid_rejected b.agent_name task_id) (bids_of_others winner bids)
  unfolding rejections
  rejections-map task_id winner [] = refl
  rejections-map task_id winner (b ∷ bs) = elim (Bool-cases (str_eq b.agent_name winner)) [
    | inl e ↦ rw e (rejections-map task_id winner bs)
    | inr e ↦
        rw e (ap (λ l. bid_rejected b.agent_name task_id ∷ l) (rejections-map task_id winner bs))
  ]

  -- A contract for a task and a bid on it.
  pub record IsContract (w : Market F V) (task : ContractNetTask V) (best : Bid F V)
      (contract : Contract F V) : Type 0 where
    pub contractor : contract.contractor ≡ best.agent_name
    pub for_bid : contract.bid ≡ best
    pub for_task : contract.task ≡ with_id w task
    pub of_task : contract.task.id ≡ some contract.task_id
    pub status : contract.status ≡ contract_awarded
    pub since : contract.started_at ≡ w.now

  award-IsContract :
      (w : Market F V) (task : ContractNetTask V) (best : Bid F V)
      → IsContract w task best (award w task best)
  award-IsContract w task best = record {
    contractor = refl;
    for_bid = refl;
    for_task = refl;
    of_task = elim (Option-cases task.id) [ inl e ↦ rw e refl | inr (id, e) ↦ rw e refl ];
    status = refl;
    since = refl;
  }

  -- When `StartContractNet` returns a contract, and `sort.Slice` rearranges the scored bids by
  -- falling score: the contract is one for the task and a bid that was received and whose score no
  -- other bid's exceeds, awarded to the agent of that bid; and what went out is, in this order, the
  -- announcement of the task to each eligible agent, the award to the winner, a rejection to the
  -- agent of each bid that is not the winner's, and the contract on the blackboard.
  pub start_contract_net-IsBest :
      (w : Market F V) (config : ConsensusConfig F) (task : ContractNetTask V)
      (eligible : List String) (bids : List (Bid F V)) (sent : List (ContractEffect F V))
      (contract : Contract F V)
      → ((x : F) → w.floats.lt x x ≡ false)
      → (let scored = scored_from w (with_id w task) bids bids in
          IsSortOf w.floats scored (w.sort_by_score scored))
      → start_contract_net w config task eligible bids ≡ (sent, ok contract)
      → (best : Bid F V) × IsBest w (with_id w task) bids best
        × IsContract w task best contract
        × (sent
            ≡ map (λ name. announced name (with_id w task)) eligible
              ++ (award_sent best.agent_name contract
                  ∷ (map
                        (λ b. bid_rejected b.agent_name contract.task_id)
                        (bids_of_others best.agent_name bids)
                      ++ contract_posted contract ∷ [])))
  start_contract_net-IsBest w config task eligible bids sent contract irrefl s h =
      let (best, chosen, made, out) =
        announced-ok w task eligible bids (select_best_bid w bids (with_id w task)) sent contract
          (start-announced w config task eligible bids sent contract h) in
      let same_id : id_of w task ≡ contract.task_id = sym (ap (λ c. c.task_id) made) in
      (
        best,
        select_best_bid-IsBest w (with_id w task) bids irrefl s chosen,
        subst (IsContract w task best) (sym made) (award-IsContract w task best),
        out
            ∙ ap
                (λ l.
                  l
                  ++ (award_sent best.agent_name contract
                      ∷ (rejections (id_of w task) best.agent_name bids
                          ++ contract_posted contract ∷ [])))
                (announcements-map (with_id w task) eligible)
            ∙ ap
                (λ l.
                  map (λ name. announced name (with_id w task)) eligible
                  ++ (award_sent best.agent_name contract ∷ (l ++ contract_posted contract ∷ [])))
                (rejections-map (id_of w task) best.agent_name bids
                  ∙ ap
                      (λ id.
                        map (λ b. bid_rejected b.agent_name id)
                          (bids_of_others best.agent_name bids))
                      same_id),
      )

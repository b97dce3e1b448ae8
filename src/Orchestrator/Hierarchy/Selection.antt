-- ===== src/Orchestrator/Hierarchy/Selection.antt =====
-- internal/orchestrator/hierarchy.go: which sub-agents are selected for a situation.
use cryptofunk.Prelude.{
  false, drop, ◌++◌, ap, sym, ◌∙◌, ltb→lt, ℕ, zero, suc, ◌≤◌, ◌<◌, ◌⊎◌, ltb, String, Bool, true,
  ◌≡◌, refl, subst, inl, inr, Bool-cases, some, List, [], ◌∷◌, length, keep, take, All, ok, arith,
}
use cryptofunk.Prelude.Dict.{lookup}
use cryptofunk.Prelude.Floats.{Floats}
use cryptofunk.Orchestrator.Consensus.Award.{
  In, Rearranged, unmoved, behind, exchanged, followed, In-Rearranged,
}
use cryptofunk.Orchestrator.Hierarchy.{
  SubAgentInfo, MetaAgent, HierarchyManager, Facilities, Situation,
}
use cryptofunk.Orchestrator.Hierarchy.Situations.{evaluate_conditions, select_sub_agents}

module _ {A : Type 0} where
  length-take : (n : ℕ) (xs : List A) → length (take n xs) ≤ n
  length-take zero xs = omega arith
  length-take (suc n) [] = omega arith
  length-take (suc n) (x ∷ xs) = omega (arith, length-take n xs)

  In-take : (n : ℕ) (x : A) (xs : List A) → In x (take n xs) → In x xs
  In-take zero x xs h = absurd h
  In-take (suc n) x [] h = h
  In-take (suc n) x (y ∷ xs) (inl e) = inl e
  In-take (suc n) x (y ∷ xs) (inr h) = inr (In-take n x xs h)

  In-keep : (p : A → Bool) (x : A) (xs : List A) → In x (keep p xs) → In x xs × (p x ≡ true)
  In-keep p x [] h = absurd h
  In-keep p x (y ∷ xs) h = elim (Bool-cases (p y)) [
    | inl e ↦ elim (rw e at h) [
      | inl same ↦ (inl same, rw same e)
      | inr rest ↦ let (among, holds) = In-keep p x xs rest in (inr among, holds)
    ]
    | inr e ↦ let (among, holds) = In-keep p x xs (rw e at h) in (inr among, holds)
  ]

  take-drop : (n : ℕ) (xs : List A) → take n xs ++ drop n xs ≡ xs
  take-drop zero xs = refl
  take-drop (suc n) [] = refl
  take-drop (suc n) (x ∷ xs) = ap (λ l. x ∷ l) (take-drop n xs)

  length-take_full : (n : ℕ) (xs : List A) → n ≤ length xs → length (take n xs) ≡ n
  length-take_full zero xs l = refl
  length-take_full (suc n) [] l = absurd (omega arith)
  length-take_full (suc n) (x ∷ xs) l = ap suc (length-take_full n xs (omega (arith, l)))

  length-Rearranged : {xs ys : List A} → Rearranged xs ys → length xs ≡ length ys
  length-Rearranged unmoved = refl
  length-Rearranged (behind x r) = ap suc (length-Rearranged r)
  length-Rearranged (exchanged x y) = refl
  length-Rearranged (followed r s) = length-Rearranged r ∙ length-Rearranged s

  All-drop_take :
      (R : A → A → Type 0) (x : A) (n : ℕ) (xs : List A) → All (R x) xs → All (R x) (drop n xs)
  All-drop_take R x zero xs h = h
  All-drop_take R x (suc n) [] h = tt
  All-drop_take R x (suc n) (y ∷ xs) h = All-drop_take R x n xs h.1

  All-In : {P : A → Type 0} (xs : List A) → ((x : A) → In x xs → P x) → All P xs
  All-In [] h = tt
  All-In (x ∷ xs) h = (h x (inl refl), All-In xs (λ y i. h y (inr i)))

module _ {F V : Type 0} where
  -- No weight is above one that stands before it.
  abbrev pub ByWeight : Floats F → List (SubAgentInfo F V) → Type 0
  ByWeight f [] = Unit
  ByWeight f (a ∷ others) = All (λ b. f.lt a.weight b.weight ≡ false) others × ByWeight f others

  -- None of `left` is heavier than one of `chosen`.
  abbrev pub Heaviest : Floats F → List (SubAgentInfo F V) → List (SubAgentInfo F V) → Type 0
  Heaviest f chosen left = All (λ a. All (λ b. f.lt a.weight b.weight ≡ false) left) chosen

  Heaviest-take :
      (f : Floats F) (n : ℕ) (agents : List (SubAgentInfo F V))
      → ByWeight f agents
      → Heaviest f (take n agents) (drop n agents)
  Heaviest-take f zero agents h = tt
  Heaviest-take f (suc n) [] h = tt
  Heaviest-take f (suc n) (a ∷ others) h = (
    All-drop_take (λ a b. f.lt a.weight b.weight ≡ false) a n others h.0,
    Heaviest-take f n others h.1,
  )

  -- The sub-agents whose conditions hold.
  abbrev pub fitting_of : Facilities F V → Situation F V → MetaAgent F V → List (SubAgentInfo F V)
  fitting_of w s meta = keep (λ a. evaluate_conditions w s a.conditions) meta.sub_agents

  -- All of the fitting ones, if they are within the limit; otherwise as many as the limit, with none
  -- left out that is heavier than one of them.
  abbrev pub IsSelection :
      Facilities F V → Situation F V → MetaAgent F V → List (SubAgentInfo F V) → Type 0
  IsSelection w s meta selected =
      let max = meta.resource_limits.max_active_sub_agents in
      let fitting = fitting_of w s meta in
      (length selected ≤ max)
      × All (λ a. In a meta.sub_agents × (evaluate_conditions w s a.conditions ≡ true)) selected
      × ((selected ≡ fitting)
          ⊎ ((max < length fitting)
              × (length selected ≡ max)
              × ((left : List (SubAgentInfo F V)) × Rearranged fitting (selected ++ left)
                  × Heaviest w.floats selected left)))

  -- When `SelectSubAgents` returns agents, and `sort.Slice` rearranges by falling weight: they are at
  -- most as many as the limit of the meta-agent, each of them is a sub-agent of it, and the conditions
  -- of each hold in the situation. It returns all those whose conditions hold, in their order, unless
  -- they are more than the limit; then it returns exactly as many as the limit, and none of those left
  -- out is heavier than one that is returned.
  pub select_sub_agents-IsSelection :
      (w : Facilities F V) (name : String) (s : Situation F V) (hm : HierarchyManager F V)
      (meta : MetaAgent F V) (selected : List (SubAgentInfo F V))
      → (let fitting = fitting_of w s meta in
          Rearranged fitting (w.sort_by_weight fitting)
          × ByWeight w.floats (w.sort_by_weight fitting))
      → lookup name hm.meta_agents ≡ some meta
      → select_sub_agents w name s hm ≡ ok selected
      → IsSelection w s meta selected
  unfolding select_sub_agents
  select_sub_agents-IsSelection w name s hm meta selected (moved, falling) g h =
      let max = meta.resource_limits.max_active_sub_agents in
      let holds = λ (a : SubAgentInfo F V). evaluate_conditions w s a.conditions in
      let fitting = fitting_of w s meta in
      elim (Bool-cases (ltb max (length fitting))) [
        | inl over ↦
            let sorted = w.sort_by_weight fitting in
            let same : take max sorted ≡ selected = cc (rw (g, over, select_sub_agents) at h) in
            let more = ltb→lt max (length fitting) over in
            let as_many = length-Rearranged moved in
            subst (IsSelection w s meta) same (
              length-take max sorted,
              All-In (take max sorted) (λ a i.
                  In-keep holds a meta.sub_agents (In-Rearranged a moved (In-take max a sorted i))),
              inr (
                more,
                length-take_full max sorted (omega (arith, more, as_many)),
                (
                  drop max sorted,
                  subst (Rearranged fitting) (sym (take-drop max sorted)) moved,
                  Heaviest-take w.floats max sorted falling,
                ),
              ),
            )
        | inr within ↦
            let same : fitting ≡ selected = cc (rw (g, within, select_sub_agents) at h) in
            subst (IsSelection w s meta) same (
              ground (arith, within),
              All-In fitting (λ a i. In-keep holds a meta.sub_agents i),
              inl refl,
            )
      ]

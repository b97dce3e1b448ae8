-- ===== src/Orchestrator/HotSwap/View.antt =====
-- A store of registrations and a map of names to places in it (internal/orchestrator/hotswap.go),
-- seen from outside: what a name leads to, and how the writes of the coordinator change that.
use cryptofunk.Prelude.{
  ℕ, ◌≡◌, ◌≢◌, refl, sym, ap, ◌∙◌, inl, inr, String, false, Option, none, some, List, [], ◌∷◌, ◌++◌,
  str_eq, eq_iff, if◌then◌else◌, Bool-cases, Option-cases, length, get_elem?, set, get_elem?-append,
  get_elem?-append_left, get_elem?-set_self, get_elem?-set_ne,
}
use cryptofunk.Prelude.Dict.{Dict, lookup, insert, erase, lookup-insert, lookup-erase}
use cryptofunk.Orchestrator.HotSwap.{AgentRegistration, at_place}

module _ {V : Type 0} where
  abbrev pub view : List (AgentRegistration V) → Dict ℕ → String → Option (AgentRegistration V)
  view regs agents name = at_place regs (lookup name agents)

  -- Every name leads to a registration of that name.
  abbrev pub IsNamed : List (AgentRegistration V) → Dict ℕ → Type 0
  IsNamed regs agents =
      (name : String) (place : ℕ)
      → lookup name agents ≡ some place
      → (agent : AgentRegistration V) × (get_elem? regs place ≡ some agent) × (agent.name ≡ name)

  module _ (regs : List (AgentRegistration V)) (agents : Dict ℕ) (named : IsNamed regs agents) where
    view-append :
        (new : AgentRegistration V) (key : String)
        → view (regs ++ new ∷ []) agents key ≡ view regs agents key
    view-append new key = elim (Option-cases (lookup key agents)) [
      | inl l ↦ ap (at_place (regs ++ new ∷ [])) l ∙ sym (ap (at_place regs) l)
      | inr (place, l) ↦
          let (agent, there, _) = named key place l in
          ap (at_place (regs ++ new ∷ [])) l
          ∙ get_elem?-append_left regs (new ∷ []) place there
          ∙ sym (ap (at_place regs) l ∙ there)
    ]

    pub view-insert :
        (new : AgentRegistration V) (name key : String)
        → view (regs ++ new ∷ []) (insert name (length regs) agents) key
          ≡ (if str_eq name key then some new else view regs agents key)
    view-insert new name key =
        ap (at_place (regs ++ new ∷ [])) (lookup-insert name key (length regs) agents)
        ∙ elim (Bool-cases (str_eq name key)) [
          | inl e ↦ rw e (get_elem?-append regs new)
          | inr e ↦ rw e (view-append new key)
        ]

    pub IsNamed-insert :
        (new : AgentRegistration V)
        → IsNamed (regs ++ new ∷ []) (insert new.name (length regs) agents)
    IsNamed-insert new key place l = elim (Bool-cases (str_eq new.name key)) [
      | inl e ↦
          let here : some (length regs) ≡ some place =
            sym (lookup-insert new.name key (length regs) agents ∙ rw e refl) ∙ l in
          let same : length regs ≡ place = cc in
          (new, rw (← same) (get_elem?-append regs new), (eq_iff new.name key).0 e)
      | inr e ↦
          let (agent, there, n) =
            named key place
              (sym (lookup-insert new.name key (length regs) agents ∙ rw e refl) ∙ l) in
          (agent, get_elem?-append_left regs (new ∷ []) place there, n)
    ]

    pub view-erase :
        (name key : String)
        → view regs (erase name agents) key
          ≡ (if str_eq name key then none else view regs agents key)
    view-erase name key =
        ap (at_place regs) (lookup-erase name key agents)
        ∙ elim (Bool-cases (str_eq name key)) [ inl e ↦ rw e refl | inr e ↦ rw e refl ]

    pub IsNamed-erase : (name : String) → IsNamed regs (erase name agents)
    IsNamed-erase name key place l = elim (Bool-cases (str_eq name key)) [
      | inl e ↦
          let gone : none ≡ some place = sym (lookup-erase name key agents ∙ rw e refl) ∙ l in cc
      | inr e ↦ named key place (sym (lookup-erase name key agents ∙ rw e refl) ∙ l)
    ]

    module _ (place : ℕ) (old new : AgentRegistration V)
        (found : get_elem? regs place ≡ some old) where
      -- A write is not seen by a name that does not lead to its place.
      pub view-set_other :
          (key : String)
          → lookup key agents ≢ some place
          → view (set regs place new) agents key ≡ view regs agents key
      view-set_other key n = elim (Option-cases (lookup key agents)) [
        | inl l ↦ ap (at_place (set regs place new)) l ∙ sym (ap (at_place regs) l)
        | inr (q, l) ↦
            ap (at_place (set regs place new)) l
            ∙ get_elem?-set_ne regs place q new (λ e. n (l ∙ ap some (sym e)))
            ∙ sym (ap (at_place regs) l)
      ]

      module _ (name : String) (leads : lookup name agents ≡ some place)
          (same : new.name ≡ old.name) where
        old_name : old.name ≡ name
        old_name =
            let (agent, there, n) = named name place leads in
            let is_old : some agent ≡ some old = sym there ∙ found in cc

        ne_place : (key : String) → str_eq name key ≡ false → lookup key agents ≢ some place
        ne_place key e l =
            let (agent, there, n) = named key place l in
            let is_old : some old ≡ some agent = sym found ∙ there in
            let names : name ≡ key = cc (is_old, n, old_name) in
            let yes_ = (eq_iff name key).1 names in cc

        pub view-set :
            (key : String)
            → view (set regs place new) agents key
              ≡ (if str_eq name key then some new else view regs agents key)
        view-set key = elim (Bool-cases (str_eq name key)) [
          | inl e ↦
              let l : lookup key agents ≡ some place =
                ap (λ k. lookup k agents) (sym ((eq_iff name key).0 e)) ∙ leads in
              rw e (ap (at_place (set regs place new)) l ∙ get_elem?-set_self regs place new found)
          | inr e ↦ rw e (view-set_other key (ne_place key e))
        ]

        pub IsNamed-set : IsNamed (set regs place new) agents
        IsNamed-set key q l = elim (Bool-cases (str_eq name key)) [
          | inl e ↦
              let k = (eq_iff name key).0 e in
              let here : some place ≡ some q = sym leads ∙ (ap (λ k. lookup k agents) k ∙ l) in
              let p : place ≡ q = cc in
              (new, rw (← p) (get_elem?-set_self regs place new found), same ∙ (old_name ∙ k))
          | inr e ↦
              let (agent, there, n) = named key q l in
              (
                agent,
                get_elem?-set_ne regs place q new (λ p. ne_place key e (l ∙ ap some (sym p)))
                    ∙ there,
                n,
              )
        ]

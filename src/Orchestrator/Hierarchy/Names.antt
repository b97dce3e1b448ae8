-- ===== src/Orchestrator/Hierarchy/Names.antt =====
-- internal/orchestrator/hierarchy.go: the names of the sub-agents of a meta-agent.
use mathlib.Core.List.{map}
use cryptofunk.Prelude.{
  String, str_eq, eq_iff, Bool, false, not, ◌≡◌, refl, ap, inl, inr, Bool-cases, List, [], ◌∷◌,
  ◌++◌, keep, arith,
}
use cryptofunk.Orchestrator.Hierarchy.{SubAgentInfo}
use cryptofunk.Orchestrator.Hierarchy.Members.{is_named, has_member, reweigh}

module _ {F V : Type 0} where
  abbrev pub names_of : List (SubAgentInfo F V) → List String
  names_of members = map (λ a. a.agent_name) members

  -- No two sub-agents have one name.
  abbrev pub DistinctMembers : List (SubAgentInfo F V) → Type 0
  DistinctMembers [] = Unit
  DistinctMembers (a ∷ others) = (has_member a.agent_name others ≡ false) × DistinctMembers others

  has_member-append :
      (name : String) (members : List (SubAgentInfo F V)) (a : SubAgentInfo F V)
      → has_member name members ≡ false
      → str_eq a.agent_name name ≡ false
      → has_member name (members ++ a ∷ []) ≡ false
  has_member-append name [] a h n = rw n
  has_member-append name (b ∷ others) a h n = ground (arith, has_member-append name others a, h, n)

  pub DistinctMembers-append :
      (members : List (SubAgentInfo F V)) (a : SubAgentInfo F V)
      → DistinctMembers members
      → has_member a.agent_name members ≡ false
      → DistinctMembers (members ++ a ∷ [])
  DistinctMembers-append [] a d h = (refl, tt)
  DistinctMembers-append (b ∷ others) a d h = elim (Bool-cases (str_eq b.agent_name a.agent_name)) [
    | inl e ↦ cc (rw e at h)
    | inr e ↦
        let differs : str_eq a.agent_name b.agent_name ≡ false =
          ground (arith, e, eq_iff a.agent_name b.agent_name, eq_iff b.agent_name a.agent_name) in
        (
          has_member-append b.agent_name others a d.0 differs,
          DistinctMembers-append others a d.1 (rw e at h),
        )
  ]

  has_member-keep :
      (name : String) (p : SubAgentInfo F V → Bool) (members : List (SubAgentInfo F V))
      → has_member name members ≡ false
      → has_member name (keep p members) ≡ false
  has_member-keep name p [] h = refl
  has_member-keep name p (b ∷ others) h = ground (arith, has_member-keep name p others, h)

  pub DistinctMembers-keep :
      (p : SubAgentInfo F V → Bool) (members : List (SubAgentInfo F V))
      → DistinctMembers members
      → DistinctMembers (keep p members)
  DistinctMembers-keep p [] d = tt
  DistinctMembers-keep p (b ∷ others) d = elim (Bool-cases (p b)) [
    | inl e ↦ rw e (has_member-keep b.agent_name p others d.0, DistinctMembers-keep p others d.1)
    | inr e ↦ rw e (DistinctMembers-keep p others d.1)
  ]

  pub names-append :
      (members : List (SubAgentInfo F V)) (a : SubAgentInfo F V)
      → names_of (members ++ a ∷ []) ≡ names_of members ++ a.agent_name ∷ []
  names-append [] a = refl
  names-append (b ∷ others) a = ap (λ r. b.agent_name ∷ r) (names-append others a)

  pub names-keep :
      (name : String) (members : List (SubAgentInfo F V))
      → names_of (keep (λ a. not (is_named name a)) members)
        ≡ keep (λ n. not (str_eq n name)) (names_of members)
  names-keep name [] = refl
  names-keep name (b ∷ others) = elim (Bool-cases (str_eq b.agent_name name)) [
    | inl e ↦ rw e (names-keep name others)
    | inr e ↦ rw e (ap (λ r. b.agent_name ∷ r) (names-keep name others))
  ]

  pub names-reweigh :
      (name : String) (weight : F) (members : List (SubAgentInfo F V))
      → names_of (reweigh name weight members) ≡ names_of members
  names-reweigh name weight [] = refl
  names-reweigh name weight (b ∷ others) = elim (Bool-cases (str_eq b.agent_name name)) [
    | inl e ↦ rw e
    | inr e ↦ rw e (ap (λ r. b.agent_name ∷ r) (names-reweigh name weight others))
  ]

  has_member-reweigh :
      (other name : String) (weight : F) (members : List (SubAgentInfo F V))
      → has_member other (reweigh name weight members) ≡ has_member other members
  has_member-reweigh other name weight [] = refl
  has_member-reweigh other name weight (b ∷ others) = elim (Bool-cases (str_eq b.agent_name name)) [
    | inl e ↦ rw e
    | inr e ↦ rw e (rw (has_member-reweigh other name weight others))
  ]

  pub DistinctMembers-reweigh :
      (name : String) (weight : F) (members : List (SubAgentInfo F V))
      → DistinctMembers members
      → DistinctMembers (reweigh name weight members)
  DistinctMembers-reweigh name weight [] d = tt
  DistinctMembers-reweigh name weight (b ∷ others) d =
      elim (Bool-cases (str_eq b.agent_name name)) [
        | inl e ↦ rw e d
        | inr e ↦ rw e (
          rw (has_member-reweigh b.agent_name name weight others) d.0,
          DistinctMembers-reweigh name weight others d.1,
        )
      ]

-- ===== src/Orchestrator/Hierarchy/Removal.antt =====
-- internal/orchestrator/hierarchy.go: what `RemoveSubAgent` leaves.
use cryptofunk.Prelude.{
  String, str_eq, eq_iff, false, not, ◌≡◌, ◌≢◌, refl, ap, sym, ◌∙◌, inl, inr, Bool-cases,
  Option-cases, none, some, List, [], ◌∷◌, keep, ok, arith,
}
use cryptofunk.Prelude.Dict.{lookup, lookup-insert, lookup-erase}
use cryptofunk.Orchestrator.Hierarchy.{SubAgentInfo, MetaAgent, HierarchyManager, Facilities}
use cryptofunk.Orchestrator.Hierarchy.Members.{is_named, has_member, remove_sub_agent}

module _ {F V : Type 0} where
  has_member-keep_self :
      (name : String) (members : List (SubAgentInfo F V))
      → has_member name (keep (λ a. not (is_named name a)) members) ≡ false
  has_member-keep_self name [] = refl
  has_member-keep_self name (a ∷ others) = ground (arith, has_member-keep_self name others)

  -- When `RemoveSubAgent` removes a sub-agent from a meta-agent of another name: the meta-agent has
  -- its other sub-agents, in their order, and none of that name; every other meta-agent is as it
  -- was; and the name removed has no node any more, also if it is that of a meta-agent.
  pub remove_sub_agent-removes :
      (w : Facilities F V) (name sub other : String) (hm hm' : HierarchyManager F V)
      → remove_sub_agent w name sub hm ≡ (hm', ok tt)
      → name ≢ other
      → (meta : MetaAgent F V) × (lookup name hm.meta_agents ≡ some meta)
        × (lookup name hm'.meta_agents
            ≡ some (record meta { sub_agents = keep (λ a. not (is_named sub a)) meta.sub_agents }))
        × (has_member sub (keep (λ a. not (is_named sub a)) meta.sub_agents) ≡ false)
        × (lookup other hm'.meta_agents ≡ lookup other hm.meta_agents)
        × (lookup sub hm'.hierarchy ≡ none)
  unfolding remove_sub_agent
  remove_sub_agent-removes w name sub other hm hm' h differs =
      elim (Option-cases (lookup name hm.meta_agents)) [
        | inl g ↦ cc (ap (λ p. p.1) (rw (g, remove_sub_agent) at h))
        | inr (meta, g) ↦ elim (Bool-cases (has_member sub meta.sub_agents)) [
          | inr absent ↦ cc (ap (λ p. p.1) (rw (g, absent, remove_sub_agent) at h))
          | inl there ↦
              let e = ap (λ p. p.0) (rw (g, there, remove_sub_agent) at h) in
              let metas = sym (ap (λ m. m.meta_agents) e) in
              let nodes = sym (ap (λ m. m.hierarchy) e) in
              let stay = keep (λ a. not (is_named sub a)) meta.sub_agents in
              let new = record meta { sub_agents = stay } in
              let apart : str_eq name other ≡ false = ground (arith, eq_iff name other, differs) in
              (
                meta,
                g,
                ap (lookup name) metas
                    ∙ lookup-insert name name new hm.meta_agents
                    ∙ rw ((eq_iff name name).1 refl),
                has_member-keep_self sub meta.sub_agents,
                ap (lookup other) metas ∙ lookup-insert name other new hm.meta_agents ∙ rw apart,
                ap (lookup sub) nodes ∙ lookup-erase sub sub _ ∙ rw ((eq_iff sub sub).1 refl),
              )
        ]
      ]

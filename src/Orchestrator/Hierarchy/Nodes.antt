-- ===== src/Orchestrator/Hierarchy/Nodes.antt =====
-- internal/orchestrator/hierarchy.go: how the nodes of the hierarchy agree with the meta-agents.
use cryptofunk.Prelude.{
  ◌+◌, String, str_eq, eq_iff, true, false, ◌≡◌, refl, ap, sym, ◌∙◌, subst, inl, inr, Bool-cases,
  Option-cases, some, List, if◌then◌else◌, length,
}
use cryptofunk.Prelude.Dict.{Dict, lookup, insert, lookup-insert, Entries}
use cryptofunk.Orchestrator.Hierarchy.{
  SubAgentInfo, MetaAgent, HierarchyNode, HierarchyManager, Facilities, parent_updated,
}
use cryptofunk.Orchestrator.Hierarchy.Members.{new_node, update_children, ensure_node, with_members}
use cryptofunk.Orchestrator.Hierarchy.Names.{names_of, DistinctMembers}

module _ {F V : Type 0} where
  -- The counters of a meta-agent add up.
  abbrev pub IsCounted : MetaAgent F V → Type 0
  IsCounted meta =
      let p = meta.performance in
      (p.successful_decisions + p.failed_decisions ≡ p.total_decisions)
      × (p.total_decisions ≡ length meta.decisions)

  abbrev pub IsOrderly : MetaAgent F V → Type 0
  IsOrderly meta = DistinctMembers meta.sub_agents × IsCounted meta

  -- A node that is marked as a meta-agent's belongs to one, and its children are the sub-agents.
  abbrev pub NodesAgree : Dict (MetaAgent F V) → Dict HierarchyNode → Type 0
  NodesAgree metas nodes =
      (name : String) (node : HierarchyNode)
      → lookup name nodes ≡ some node
      → node.is_meta_agent ≡ true
      → (meta : MetaAgent F V) × (lookup name metas ≡ some meta)
        × (node.children ≡ names_of meta.sub_agents)

  abbrev pub IsConsistent : HierarchyManager F V → Type 0
  IsConsistent hm =
      Entries (λ name meta. IsOrderly meta) hm.meta_agents × NodesAgree hm.meta_agents hm.hierarchy

  lookup-update_children :
      (w : Facilities F V) (f : List String → List String) (name other : String)
      (nodes : Dict HierarchyNode) (node : HierarchyNode)
      → lookup other (update_children w f name nodes) ≡ some node
      → (old : HierarchyNode) × (lookup other nodes ≡ some old)
        × (node.is_meta_agent ≡ old.is_meta_agent)
        × (node.children ≡ (if str_eq name other then f old.children else old.children))
  unfolding update_children
  lookup-update_children w f name other nodes node h = elim (Option-cases (lookup name nodes)) [
    | inl g ↦ elim (Bool-cases (str_eq name other)) [
      | inl e ↦ cc (rw (g, update_children) at h, g, (eq_iff name other).0 e)
      | inr e ↦ (node, rw (g, update_children) at h, refl, rw e)
    ]
    | inr (old, g) ↦
        let new : HierarchyNode = record old {
          children = f old.children;
          updated_at = w.clock parent_updated;
        } in
        let h' = rw (lookup-insert name other new nodes) at (rw (g, update_children) at h) in
        elim (Bool-cases (str_eq name other)) [
          | inl e ↦
              let same : new ≡ node = cc (rw e at h') in
              (
                old,
                subst (λ n. lookup n nodes ≡ some old) ((eq_iff name other).0 e) g,
                rw (← same),
                rw e (rw (← same)),
              )
          | inr e ↦ (node, rw e at h', refl, rw e)
        ]
  ]

  pub lookup-ensure_node :
      (w : Facilities F V) (sub parent other : String) (nodes : Dict HierarchyNode)
      (node : HierarchyNode)
      → lookup other (ensure_node w sub parent nodes) ≡ some node
      → node.is_meta_agent ≡ true
      → lookup other nodes ≡ some node
  unfolding ensure_node
  lookup-ensure_node w sub parent other nodes node h m = elim (Option-cases (lookup sub nodes)) [
    | inr (old, g) ↦ rw (g, ensure_node) at h
    | inl g ↦
        let h' =
          rw (lookup-insert sub other (new_node w sub 2 parent false) nodes) at
            (rw (g, ensure_node) at h) in
        elim (Bool-cases (str_eq sub other)) [
          | inl e ↦
              let same : new_node w sub 2 parent false ≡ node = cc (rw e at h') in
              cc (ap (λ n. n.is_meta_agent) same, m)
          | inr e ↦ rw e at h'
        ]
  ]

  -- A meta-agent is written back with its sub-agents as they were.
  pub NodesAgree-insert :
      (name : String) (old new : MetaAgent F V) (metas : Dict (MetaAgent F V))
      (nodes : Dict HierarchyNode)
      → lookup name metas ≡ some old
      → names_of new.sub_agents ≡ names_of old.sub_agents
      → NodesAgree metas nodes
      → NodesAgree (insert name new metas) nodes
  NodesAgree-insert name old new metas nodes g same agree other node l m =
      let (meta, found, children) = agree other node l m in
      elim (Bool-cases (str_eq name other)) [
        | inl e ↦
            let was : meta ≡ old = cc (found, g, (eq_iff name other).0 e) in
            (
              new,
              rw (lookup-insert name other new metas, e),
              children ∙ ap (λ x. names_of x.sub_agents) was ∙ sym same,
            )
        | inr e ↦ (meta, rw (lookup-insert name other new metas, e) found, children)
      ]

  -- The children of a node change with the sub-agents.
  pub NodesAgree-members :
      (w : Facilities F V) (f : List String → List String) (name : String) (old : MetaAgent F V)
      (members : List (SubAgentInfo F V)) (metas : Dict (MetaAgent F V))
      (nodes : Dict HierarchyNode)
      → lookup name metas ≡ some old
      → names_of members ≡ f (names_of old.sub_agents)
      → NodesAgree metas nodes
      → NodesAgree (with_members name old members metas) (update_children w f name nodes)
  NodesAgree-members w f name old members metas nodes g same agree other node l m =
      let (before, found, marked, children) = lookup-update_children w f name other nodes node l in
      let (meta, stored, agreed) = agree other before found (sym marked ∙ m) in
      let new = record old { sub_agents = members } in
      elim (Bool-cases (str_eq name other)) [
        | inl e ↦
            let was : meta ≡ old = cc (stored, g, (eq_iff name other).0 e) in
            (
              new,
              rw (lookup-insert name other new metas, e),
              (rw e at children) ∙ ap f (agreed ∙ ap (λ x. names_of x.sub_agents) was) ∙ sym same,
            )
        | inr e ↦
            (meta, rw (lookup-insert name other new metas, e) stored, (rw e at children) ∙ agreed)
      ]

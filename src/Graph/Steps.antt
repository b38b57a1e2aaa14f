-- ===== src/Graph/Steps.antt =====
-- The operations of the graph as steps, and what every reachable graph satisfies.
use agent_db.Prelude.{
  ℕ, ◌≡◌, ◌≢◌, refl, sym, ap, ◌∙◌, inl, inr, Bool, none, some, Option-cases, List, ◌++◌, arith,
}
use mathlib.Core.Path.{subst}
use native.Mathlib.Decide.{ℕ_discrete}
use agent_db.Sql.Text.{Bytes}
use agent_db.Storage.BufferPool.Frames.{In}
use agent_db.Graph.{
  Node, Edge, Graph, new_graph, assign, add_node, add_edge, delete_edge, delete_edges, delete_node,
}
use agent_db.Graph.Edges.{
  IsValid, Fewer, new_graph-IsValid, with_edge-IsValid, delete_edge-Fewer, delete_edges-Fewer,
  assign_self, assign_ne, In-append_left, In-append_right,
}

pub data Step : Graph → Graph → Type 0 where
  node_added :
      (g : Graph) (labels : List Bytes) (properties : List (Bytes × Bytes))
      → Step g (add_node g labels properties).1
  edge_added : (g : Graph) (t : Bytes) (from_id to_id : ℕ) → Step g (add_edge g t from_id to_id).1
  edge_deleted : (g : Graph) (id : ℕ) → Step g (delete_edge g id).1
  node_deleted : (g : Graph) (id : ℕ) → Step g (delete_node g id).1

-- the graphs that the operations make, successful or not, from a new one
pub data Reachable : Graph → Type 0 where
  start : (write_fails : ℕ → Bool) → Reachable (new_graph write_fails)
  next : (g g' : Graph) → Reachable g → Step g g' → Reachable g'

add_node-IsValid :
    (g : Graph) (labels : List Bytes) (properties : List (Bytes × Bytes))
    → IsValid g
    → IsValid (add_node g labels properties).1
unfolding add_node
add_node-IsValid g labels properties v = record {
  own = v.own;
  fresh = v.fresh;
  from_listed = v.from_listed;
  to_listed = v.to_listed;
  from_there = v.from_there;
  to_there = v.to_there;
  from_node = λ i x h. let (n, at) = v.from_node i x h in (n, old x.from_id n at);
  to_node = λ i x h. let (n, at) = v.to_node i x h in (n, old x.to_id n at);
  fresh_node = λ i n h. elim (ℕ_discrete i g.next_node_id) [
    | yes same ↦ omega (arith, same)
    | no ne ↦
        omega (
          arith,
          v.fresh_node i n (sym (assign_ne g.node_by_id g.next_node_id (some node) i ne) ∙ h),
        )
  ];
}
  where
    node : Node
    node = record { id = g.next_node_id; labels = labels; properties = properties }

    old :
        (i : ℕ) (n : Node)
        → g.node_by_id i ≡ some n
        → assign g.node_by_id g.next_node_id (some node) i ≡ some n
    old i n h =
        assign_ne g.node_by_id g.next_node_id (some node) i
          (λ same. omega (arith, v.fresh_node i n h, same))
        ∙ h

add_edge-IsValid :
    (g : Graph) (t : Bytes) (from_id to_id : ℕ) → IsValid g → IsValid (add_edge g t from_id to_id).1
unfolding add_edge
add_edge-IsValid g t from_id to_id v = elim (Option-cases (g.node_by_id from_id)) [
  | inl e ↦ rw (e, add_edge) v
  | inr (f, has_from) ↦ elim (Option-cases (g.node_by_id to_id)) [
    | inl e ↦ rw (has_from, add_edge) (rw e v)
    | inr (n, has_to) ↦
        rw (has_from, add_edge)
          (rw has_to (
            with_edge-IsValid g v
              (record { id = g.next_edge_id; edge_type = t; from_id = from_id; to_id = to_id }) refl
              f n has_from has_to))
  ]
]

module _ (g : Graph) (v : IsValid g) (id : ℕ) where
  abbrev ids : List ℕ
  ids = g.edge_by_from id ++ g.edge_by_to id

  abbrev rest : Graph
  rest = delete_edges ids g

  fewer : Fewer g rest × ((i : ℕ) → In i ids → rest.edge_by_id i ≡ none)
  fewer = delete_edges-Fewer ids g v

  -- no edge of the node is left
  apart : (i : ℕ) (e : Edge) → rest.edge_by_id i ≡ some e → (e.from_id ≢ id) × (e.to_id ≢ id)
  apart i e h =
      let old = fewer.0.edges i e h in
      (
        λ same.
            let bad : none ≡ some e =
              sym (
                fewer.1 i (
                  In-append_left i (g.edge_by_from id) (g.edge_by_to id)
                    (subst (λ n. In i (g.edge_by_from n)) same (v.from_listed i e old))))
              ∙ h in
            absurd (ground (arith, bad)),
        λ same.
            let bad : none ≡ some e =
              sym (
                fewer.1 i (
                  In-append_right i (g.edge_by_from id) (g.edge_by_to id)
                    (subst (λ n. In i (g.edge_by_to n)) same (v.to_listed i e old))))
              ∙ h in
            absurd (ground (arith, bad)),
      )

  -- What is left of a graph behind the deletion of a node.
  pub record Gone (g' : Graph) : Type 0 where
    pub valid : IsValid g'
    pub no_node : g'.node_by_id id ≡ none
    pub others : (i : ℕ) → i ≢ id → g'.node_by_id i ≡ g.node_by_id i
    pub no_edge : (i : ℕ) (e : Edge) → g'.edge_by_id i ≡ some e → (e.from_id ≢ id) × (e.to_id ≢ id)
    pub edges : (i : ℕ) (e : Edge) → g'.edge_by_id i ≡ some e → g.edge_by_id i ≡ some e

  -- DeleteNode of a node of a graph with agreeing indexes, also when the page cannot be written: the
  -- node is gone, with every edge at it, the other nodes are as before, and the indexes agree.
  pub delete_node-Gone : (node : Node) → g.node_by_id id ≡ some node → Gone (delete_node g id).1
  unfolding delete_node
  delete_node-Gone node at =
      let w = fewer.0.valid in
      rw (at, delete_node)
        (record {
          valid = record {
            own = w.own;
            fresh = w.fresh;
            from_listed = w.from_listed;
            to_listed = w.to_listed;
            from_there = w.from_there;
            to_there = w.to_there;
            from_node = λ i e h.
                let (n, there) = w.from_node i e h in
                (n, assign_ne rest.node_by_id id none e.from_id (apart i e h).0 ∙ there);
            to_node = λ i e h.
                let (n, there) = w.to_node i e h in
                (n, assign_ne rest.node_by_id id none e.to_id (apart i e h).1 ∙ there);
            fresh_node = λ i n h. elim (ℕ_discrete i id) [
              | yes same ↦
                  let bad : none ≡ some n = sym (assign_self rest.node_by_id id none i same) ∙ h in
                  absurd (ground (arith, bad))
              | no ne ↦ w.fresh_node i n (sym (assign_ne rest.node_by_id id none i ne) ∙ h)
            ];
          };
          no_node = assign_self rest.node_by_id id none id refl;
          others = λ i ne. assign_ne rest.node_by_id id none i ne ∙ ap (λ m. m i) fewer.0.nodes;
          no_edge = apart;
          edges = fewer.0.edges;
        })

delete_node-IsValid : (g : Graph) (id : ℕ) → IsValid g → IsValid (delete_node g id).1
unfolding delete_node
delete_node-IsValid g id v = elim (Option-cases (g.node_by_id id)) [
  | inl e ↦ rw (e, delete_node) v
  | inr (node, e) ↦ (delete_node-Gone g v id node e).valid
]

-- Whatever sequence of AddNode, AddEdge, DeleteEdge and DeleteNode made the graph, with whatever
-- writes that failed, the indexes by the ends of an edge hold exactly the edges, under their own ids,
-- and both ends of every edge are nodes of the graph.
pub Reachable-IsValid : (g : Graph) → Reachable g → IsValid g
Reachable-IsValid g (start w) = new_graph-IsValid w
Reachable-IsValid g (next a b r (node_added x labels properties)) =
    add_node-IsValid x labels properties (Reachable-IsValid x r)
Reachable-IsValid g (next a b r (edge_added x t from_id to_id)) =
    add_edge-IsValid x t from_id to_id (Reachable-IsValid x r)
Reachable-IsValid g (next a b r (edge_deleted x id)) =
    (delete_edge-Fewer x id (Reachable-IsValid x r)).0.valid
Reachable-IsValid g (next a b r (node_deleted x id)) =
    delete_node-IsValid x id (Reachable-IsValid x r)

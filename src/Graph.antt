-- ===== src/Graph.antt =====
-- pkg/graph/graph.go, node.go and edge.go: the graph in memory and its indexes. Maps are functions. The
-- value of a property is its text by `%v`. PutNode of the store only keeps the node in memory and does
-- not fail, so that AddNode does not either. A deletion writes an empty page on the disk; whether that
-- works is up to the environment, and a failure is an error behind the changes. The JSON on the pages is
-- left out.
pub mod Calls
pub mod Edges
pub mod Steps
use agent_db.Prelude.{
  ℕ, zero, suc, ◌+◌, Bool, true, false, not, ◌&&◌, ◌||◌, Option, none, some, List, [], ◌∷◌, ◌++◌,
  ◌==◌, if◌then◌else◌,
}
use agent_db.Outcome.{Outcome, ok, err, io, no_slot}
use agent_db.Sql.Text.{Bytes, same}

pub record Node : Type 0 where
  pub id : ℕ
  pub labels : List Bytes
  pub properties : List (Bytes × Bytes)

pub record Edge : Type 0 where
  pub id : ℕ
  pub edge_type : Bytes
  pub from_id : ℕ
  pub to_id : ℕ

pub data Direction : Type 0 where
  outgoing incoming in_both : Direction

pub record Graph : Type 0 where
  pub next_node_id : ℕ
  pub next_edge_id : ℕ
  pub node_by_id : ℕ → Option Node
  pub edge_by_id : ℕ → Option Edge
  pub node_by_label : Bytes → List ℕ
  pub node_by_prop : Bytes → Bytes → List ℕ
  pub edge_by_type : Bytes → List ℕ
  pub edge_by_from : ℕ → List ℕ
  pub edge_by_to : ℕ → List ℕ
  pub write_fails : ℕ → Bool

unfoldable pub new_graph : (ℕ → Bool) → Graph
new_graph write_fails = record {
  next_node_id = 1;
  next_edge_id = 1;
  node_by_id = λ i. none;
  edge_by_id = λ i. none;
  node_by_label = λ l. [];
  node_by_prop = λ k v. [];
  edge_by_type = λ t. [];
  edge_by_from = λ i. [];
  edge_by_to = λ i. [];
  write_fails = write_fails;
}

-- m[k] = v
abbrev pub assign {ℓ} : {A : Type ℓ} → (ℕ → A) → ℕ → A → ℕ → A
assign m k v j = if j == k then v else m j

abbrev pub assign_name {ℓ} : {A : Type ℓ} → (Bytes → A) → Bytes → A → Bytes → A
assign_name m k v j = if same j k then v else m j

unfoldable pub remove_id : List ℕ → ℕ → List ℕ
remove_id [] target = []
remove_id (id ∷ ids) target =
    let rest = remove_id ids target in if id == target then rest else id ∷ rest

unfoldable pub has_label : List Bytes → Bytes → Bool
has_label [] label = false
has_label (l ∷ ls) label = same l label || has_label ls label

-- the loops of AddNode over the labels and the properties
unfoldable pub index_labels : List Bytes → ℕ → (Bytes → List ℕ) → Bytes → List ℕ
index_labels [] id m = m
index_labels (l ∷ ls) id m = index_labels ls id (assign_name m l (m l ++ id ∷ []))

unfoldable pub index_properties :
    List (Bytes × Bytes) → ℕ → (Bytes → Bytes → List ℕ) → Bytes → Bytes → List ℕ
index_properties [] id m = m
index_properties ((key, val) ∷ ps) id m =
    index_properties ps id (assign_name m key (assign_name (m key) val (m key val ++ id ∷ [])))

-- pages of nodes start at 1, those of edges at 1000
abbrev pub node_page : ℕ → ℕ
node_page id = 1 + id

abbrev pub edge_page : ℕ → ℕ
edge_page id = 1000 + id

unfoldable pub add_node : Graph → List Bytes → List (Bytes × Bytes) → Outcome Node × Graph
add_node g labels properties =
    let node : Node = record { id = g.next_node_id; labels = labels; properties = properties } in
    (
      ok node,
      record g {
        next_node_id = g.next_node_id + 1;
        node_by_id = assign g.node_by_id node.id (some node);
        node_by_label = index_labels labels node.id g.node_by_label;
        node_by_prop = index_properties properties node.id g.node_by_prop;
      },
    )

abbrev pub with_edge : Graph → Edge → Graph
with_edge g edge = record g {
  next_edge_id = g.next_edge_id + 1;
  edge_by_id = assign g.edge_by_id edge.id (some edge);
  edge_by_type =
      assign_name g.edge_by_type edge.edge_type (g.edge_by_type edge.edge_type ++ edge.id ∷ []);
  edge_by_from = assign g.edge_by_from edge.from_id (g.edge_by_from edge.from_id ++ edge.id ∷ []);
  edge_by_to = assign g.edge_by_to edge.to_id (g.edge_by_to edge.to_id ++ edge.id ∷ []);
}

-- the error no_slot stands for a node or an edge that is not there
unfoldable pub add_edge : Graph → Bytes → ℕ → ℕ → Outcome Edge × Graph
add_edge g edge_type from_id to_id = elim (g.node_by_id from_id) [
  | none ↦ (err no_slot, g)
  | some f ↦ elim (g.node_by_id to_id) [
    | none ↦ (err no_slot, g)
    | some t ↦
        let edge : Edge = record {
          id = g.next_edge_id;
          edge_type = edge_type;
          from_id = from_id;
          to_id = to_id;
        } in
        (ok edge, with_edge g edge)
  ]
]

abbrev pub without_edge : Graph → ℕ → Edge → Graph
without_edge g id edge = record g {
  edge_by_type =
      assign_name g.edge_by_type edge.edge_type (remove_id (g.edge_by_type edge.edge_type) id);
  edge_by_from = assign g.edge_by_from edge.from_id (remove_id (g.edge_by_from edge.from_id) id);
  edge_by_to = assign g.edge_by_to edge.to_id (remove_id (g.edge_by_to edge.to_id) id);
  edge_by_id = assign g.edge_by_id id none;
}

-- deleteEdgeInternal, with the write of the empty page
unfoldable pub delete_edge : Graph → ℕ → Outcome (Unit {0}) × Graph
delete_edge g id = elim (g.edge_by_id id) [
  | none ↦ (err no_slot, g)
  | some edge ↦ (if g.write_fails (edge_page id) then err io else ok tt, without_edge g id edge)
]

-- the loop of DeleteNode over the edges, which ignores their errors
unfoldable pub delete_edges : List ℕ → Graph → Graph
delete_edges [] g = g
delete_edges (id ∷ ids) g = delete_edges ids (delete_edge g id).1

unfoldable pub unindex_labels : List Bytes → ℕ → (Bytes → List ℕ) → Bytes → List ℕ
unindex_labels [] id m = m
unindex_labels (l ∷ ls) id m = unindex_labels ls id (assign_name m l (remove_id (m l) id))

-- DeleteNode leaves the node in node_by_prop, where FindNodes does not find it any more
unfoldable pub delete_node : Graph → ℕ → Outcome (Unit {0}) × Graph
delete_node g id = elim (g.node_by_id id) [
  | none ↦ (err no_slot, g)
  | some node ↦
      let g1 = delete_edges (g.edge_by_from id ++ g.edge_by_to id) g in
      (
        if g1.write_fails (node_page id) then err io else ok tt,
        record g1 {
          node_by_label = unindex_labels node.labels id g1.node_by_label;
          node_by_id = assign g1.node_by_id id none;
        },
      )
]

-- the edges of a list of ids that are there
unfoldable pub edges_of : Graph → List ℕ → List Edge
edges_of g [] = []
edges_of g (id ∷ ids) =
    let rest = edges_of g ids in elim (g.edge_by_id id) [ none ↦ rest | some e ↦ e ∷ rest ]

unfoldable pub get_edges : Graph → ℕ → Direction → List Edge
get_edges g node_id outgoing = edges_of g (g.edge_by_from node_id)
get_edges g node_id incoming = edges_of g (g.edge_by_to node_id)
get_edges g node_id in_both =
    edges_of g (g.edge_by_from node_id) ++ edges_of g (g.edge_by_to node_id)

unfoldable pub seen : ℕ → List ℕ → Bool
seen id [] = false
seen id (i ∷ ids) = (i == id) || seen id ids

-- the loop of GetNeighbors, with the ids that it saw
unfoldable pub neighbors : Graph → ℕ → List Edge → List ℕ → List Node
neighbors g node_id [] ids = []
neighbors g node_id (e ∷ es) ids =
    let id = if e.from_id == node_id then e.to_id else e.from_id in
    let skip = neighbors g node_id es ids in
    let keep = neighbors g node_id es (id ∷ ids) in
    if seen id ids then skip else elim (g.node_by_id id) [ none ↦ skip | some n ↦ n ∷ keep ]

unfoldable pub get_neighbors : Graph → ℕ → Direction → List Node
get_neighbors g node_id dir = neighbors g node_id (get_edges g node_id dir) []

-- the nodes of a list of ids that are there and pass a test
unfoldable pub nodes_of : Graph → (Node → Bool) → List ℕ → List Node
nodes_of g keep [] = []
nodes_of g keep (id ∷ ids) =
    let rest = nodes_of g keep ids in
    elim (g.node_by_id id) [ none ↦ rest | some n ↦ if keep n then n ∷ rest else rest ]

-- an empty label or property is one that the query does not ask for
pub record Query : Type 0 where
  pub label : Bytes
  pub property : Bytes
  pub value : Bytes

-- The empty query takes the nodes in the order in which Go walks over the map of nodes.
unfoldable pub find_nodes : List ℕ → Graph → Query → List Node
find_nodes walk g q =
    let with_property = g.node_by_prop q.property q.value in
    if same q.label [] && same q.property []
    then nodes_of g (λ n. true) walk
    else if not (same q.label []) && not (same q.property [])
    then nodes_of g (λ n. has_label n.labels q.label) with_property
    else if not (same q.label [])
    then nodes_of g (λ n. true) (g.node_by_label q.label)
    else nodes_of g (λ n. true) with_property

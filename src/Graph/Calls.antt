-- ===== src/Graph/Calls.antt =====
-- pkg/graph/graph.go: the references between nodes, and the paths of calls between functions. The
-- references are the fields ref* of Graph, which no other operation of the model reads. The values of
-- the property `name` are texts, as the indexer stores them.
pub mod Callers
pub mod Listed
pub mod Paths
use agent_db.Prelude.{
  ℕ, zero, suc, ◌+◌, Bool, true, false, not, ◌&&◌, Option, none, some, List, [], ◌∷◌, ◌++◌, ◌==◌,
  if◌then◌else◌,
}
use agent_db.Outcome.{Outcome, ok, err, no_slot}
use agent_db.Sql.Text.{Bytes, codes, same}
use agent_db.Graph.{
  Node, Graph, Query, Direction, outgoing, incoming, in_both, Edge, assign, has_label, seen,
  get_edges, get_neighbors, find_nodes,
}

pub record Reference : Type 0 where
  pub id : ℕ
  pub source_id : ℕ
  pub target_id : ℕ
  pub ref_type : Bytes
  pub is_resolved : Bool

pub record References : Type 0 where
  pub next_ref_id : ℕ
  pub ref_by_id : ℕ → Option Reference
  pub ref_by_source : ℕ → List ℕ
  pub ref_by_target : ℕ → List ℕ

-- NewGraph
unfoldable pub no_references : References
no_references = record {
  next_ref_id = 1;
  ref_by_id = λ i. none;
  ref_by_source = λ i. [];
  ref_by_target = λ i. [];
}

abbrev pub with_reference : References → Reference → References
with_reference r ref = record {
  next_ref_id = r.next_ref_id + 1;
  ref_by_id = assign r.ref_by_id ref.id (some ref);
  ref_by_source =
      assign r.ref_by_source ref.source_id (r.ref_by_source ref.source_id ++ ref.id ∷ []);
  ref_by_target =
      assign r.ref_by_target ref.target_id (r.ref_by_target ref.target_id ++ ref.id ∷ []);
}

unfoldable pub add_reference : Graph → References → ℕ → ℕ → Bytes → Outcome Reference × References
add_reference g r source_id target_id ref_type = elim (g.node_by_id source_id) [
  | none ↦ (err no_slot, r)
  | some s ↦ elim (g.node_by_id target_id) [
    | none ↦ (err no_slot, r)
    | some t ↦
        let ref : Reference = record {
          id = r.next_ref_id;
          source_id = source_id;
          target_id = target_id;
          ref_type = ref_type;
          is_resolved = true;
        } in
        (ok ref, with_reference r ref)
  ]
]

-- the references of a list of ids that are there
unfoldable pub references_of : References → List ℕ → List Reference
references_of r [] = []
references_of r (id ∷ ids) =
    let rest = references_of r ids in elim (r.ref_by_id id) [ none ↦ rest | some ref ↦ ref ∷ rest ]

unfoldable pub get_references : References → ℕ → Direction → List Reference
get_references r node_id incoming = references_of r (r.ref_by_target node_id)
get_references r node_id outgoing = references_of r (r.ref_by_source node_id)
get_references r node_id in_both =
    references_of r (r.ref_by_source node_id ++ r.ref_by_target node_id)

-- the loop of GetCallers and GetCallees, for the end of a reference that they collect
unfoldable pub calling_nodes : Graph → (Reference → ℕ) → List Reference → List ℕ → List Node
calling_nodes g end [] ids = []
calling_nodes g end (ref ∷ refs) ids =
    let skip = calling_nodes g end refs ids in
    let keep = calling_nodes g end refs (end ref ∷ ids) in
    if same ref.ref_type (codes "call") && not (seen (end ref) ids)
    then elim (g.node_by_id (end ref)) [ none ↦ skip | some n ↦ n ∷ keep ]
    else skip

unfoldable pub get_callers : Graph → References → ℕ → List Node
get_callers g r node_id =
    calling_nodes g (λ ref. ref.source_id) (get_references r node_id incoming) []

unfoldable pub get_callees : Graph → References → ℕ → List Node
get_callees g r node_id =
    calling_nodes g (λ ref. ref.target_id) (get_references r node_id outgoing) []

unfoldable pub get_prop : List (Bytes × Bytes) → Bytes → Option Bytes
get_prop [] name = none
get_prop ((key, val) ∷ ps) name =
    let rest = get_prop ps name in if same key name then some val else rest

-- the name as `%v` writes it
unfoldable pub name_text : Node → Bytes
name_text n = elim (get_prop n.properties (codes "name")) [ none ↦ codes "<nil>" | some s ↦ s ]

abbrev pub functions_named : Graph → Bytes → List Node
functions_named g name =
    find_nodes [] g (record { label = codes "function"; property = codes "name"; value = name })

-- a loop that collects results and changes a state
unfoldable pub collect {ℓ ℓ' ℓ''} :
    {A : Type ℓ} {B : Type ℓ'} {S : Type ℓ''} → (A → S → List B × S) → List A → S → List B × S
collect f [] s = ([], s)
collect f (x ∷ xs) s = let one = f x s in let rest = collect f xs one.1 in (one.0 ++ rest.0, rest.1)

-- findCallPaths; the first number is maxDepth + 1 - len(currentPath), at 0 the path is too long. The
-- map `visited` is shared by all calls, and a call takes its node out behind itself.
unfoldable pub find_call_paths :
    Graph → ℕ → ℕ → ℕ → List Bytes → (ℕ → Bool) → List (List Bytes) × (ℕ → Bool)
find_call_paths g target_id zero current_id path visited = ([], visited)
find_call_paths g target_id (suc left) current_id path visited =
    let r =
      collect
        (λ (child : Node) (v : ℕ → Bool).
          if has_label child.labels (codes "call") && not (v child.id)
          then collect
              (λ (f : Node) (w : ℕ → Bool).
                find_call_paths g target_id left f.id (path ++ name_text child ∷ []) w)
              (functions_named g (name_text child)) v
          else ([], v))
        (get_neighbors g current_id outgoing) (assign visited current_id true) in
    if current_id == target_id then (path ∷ [], visited) else (r.0, assign r.1 current_id false)

unfoldable pub all_call_paths : Graph → Bytes → List Node → List Node → List (List Bytes)
all_call_paths g from_name from_nodes to_nodes =
    (collect
      (λ (from : Node) (v : ℕ → Bool).
        collect
          (λ (to : Node) (w : ℕ → Bool). find_call_paths g to.id 10 from.id (from_name ∷ []) w)
          to_nodes v)
      from_nodes (λ i. false)).0

-- the error no_slot stands for a function that is not there
unfoldable pub if_both_there :
    List Node → List Node → List (List Bytes) → Outcome (List (List Bytes))
if_both_there [] to_nodes paths = err no_slot
if_both_there (f ∷ fs) [] paths = err no_slot
if_both_there (f ∷ fs) (t ∷ ts) paths = ok paths

unfoldable pub find_call_path : Graph → Bytes → Bytes → Outcome (List (List Bytes))
find_call_path g from_name to_name =
    let from_nodes = functions_named g from_name in
    let to_nodes = functions_named g to_name in
    if_both_there from_nodes to_nodes (all_call_paths g from_name from_nodes to_nodes)

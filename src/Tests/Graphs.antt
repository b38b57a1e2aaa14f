-- ===== src/Tests/Graphs.antt =====
-- A small graph.
use agent_db.Prelude.{◌≡◌, ◌↔◌, refl, false, some, [], ◌∷◌}
use agent_db.Sql.Text.{codes, same}
use agent_db.Graph.{
  Node, Graph, new_graph, add_node, add_edge, delete_node, get_neighbors, find_nodes, nodes_of,
  index_properties, has_label, neighbors, get_edges, edges_of, seen,
}
use agent_db.Outcome.{ok}
use mathlib.Core.List.{Memᴰ}
use agent_db.Graph.Calls.Callers.{Call, get_callers-Call, get_callees-Call}
use agent_db.Graph.Calls.Listed.{Made, none_yet, added}
use agent_db.Graph.Calls.{
  References, no_references, add_reference, get_references, references_of, get_callers, get_callees,
  calling_nodes, find_call_path, if_both_there, all_call_paths, find_call_paths, collect, name_text,
  get_prop,
}
use agent_db.Graph.Calls.Paths.{Answer, find_call_path-Answer}
use agent_db.Graph.Edges.{IsValid}
use agent_db.Graph.Steps.{
  Reachable, start, next, node_added, edge_added, Gone, delete_node-Gone, Reachable-IsValid,
}

abbrev empty : Graph
empty = new_graph (λ page. false)

abbrev one : Graph
one = (add_node empty (codes "function" ∷ []) ((codes "name", codes "f") ∷ [])).1

abbrev two : Graph
two = (add_node one [] []).1

abbrev linked : Graph
linked = (add_edge two (codes "calls") 1 2).1

linked-Reachable : Reachable linked
linked-Reachable =
    next two linked
      (next one two
        (next empty one (start (λ page. false))
          (node_added empty (codes "function" ∷ []) ((codes "name", codes "f") ∷ [])))
        (node_added one [] []))
      (edge_added two (codes "calls") 1 2)

Reachable-IsValid_example : IsValid linked
Reachable-IsValid_example = Reachable-IsValid linked linked-Reachable

abbrev first : Node
first = record {
  id = 1;
  labels = codes "function" ∷ [];
  properties = (codes "name", codes "f") ∷ [];
}

first_there : linked.node_by_id 1 ≡ some first
unfolding new_graph add_node add_edge
first_there = refl

linked-IsValid : IsValid linked
linked-IsValid = Reachable-IsValid linked linked-Reachable

delete_node-Gone_example : Gone linked linked-IsValid 1 (delete_node linked 1).1
delete_node-Gone_example = delete_node-Gone linked linked-IsValid 1 first first_there

-- a function f with a call of g in it, and the function g
abbrev function_f : Graph
function_f = (add_node empty (codes "function" ∷ []) ((codes "name", codes "f") ∷ [])).1

abbrev call_g : Graph
call_g = (add_node function_f (codes "call" ∷ []) ((codes "name", codes "g") ∷ [])).1

abbrev function_g : Graph
function_g = (add_node call_g (codes "function" ∷ []) ((codes "name", codes "g") ∷ [])).1

abbrev calling : Graph
calling = (add_edge function_g (codes "contains") 1 2).1

find_call_path_runs :
    find_call_path calling (codes "f") (codes "g") ≡ ok ((codes "f" ∷ codes "g" ∷ []) ∷ [])
unfolding find_call_path all_call_paths find_call_paths if_both_there collect get_neighbors
    find_nodes same nodes_of add_edge add_node new_graph index_properties has_label neighbors
    get_edges edges_of seen name_text get_prop
find_call_path_runs = refl

find_call_path-Answer_example :
    Answer calling (codes "f") (codes "g") (find_call_path calling (codes "f") (codes "g"))
find_call_path-Answer_example = find_call_path-Answer calling (codes "f") (codes "g")

-- the call refers to the function g
abbrev references : References
references = (add_reference calling no_references 2 3 (codes "call")).1

abbrev caller : Node
caller = record { id = 2; labels = codes "call" ∷ []; properties = (codes "name", codes "g") ∷ [] }

get_callers_runs : get_callers calling references 3 ≡ caller ∷ []
unfolding get_callers calling_nodes get_references references_of add_reference seen same add_node
    add_edge new_graph no_references
get_callers_runs = refl

references-Made : Made references
references-Made = added calling no_references 2 3 (codes "call") none_yet

get_callers-Call_example :
    Memᴰ caller (get_callers calling references 3)
    ↔ Call calling references (λ ref. ref.target_id) (λ ref. ref.source_id) 3 caller
get_callers-Call_example = get_callers-Call calling references references-Made 3 caller

abbrev callee : Node
callee = record {
  id = 3;
  labels = codes "function" ∷ [];
  properties = (codes "name", codes "g") ∷ [];
}

get_callees-Call_example :
    Memᴰ callee (get_callees calling references 2)
    ↔ Call calling references (λ ref. ref.source_id) (λ ref. ref.target_id) 2 callee
get_callees-Call_example = get_callees-Call calling references references-Made 2 callee

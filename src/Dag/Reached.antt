-- ===== src/Dag/Reached.antt =====
-- internal/workflow/dag/graph.go: the graphs that its calls make.
use platformfoundry_ce.Base.{String, ◌≡◌, List}
use platformfoundry_ce.Dag.Graph.{Graph, ok, new_graph, add_node, remove_node}
use platformfoundry_ce.Dag.Neighbours.{
  IsWellFormed, new_graph-IsWellFormed, add_node-IsWellFormed, remove_node-IsWellFormed,
}

-- By calls of AddNode, of which those that fail change nothing, and of RemoveNode.
pub data Made : Graph → Type 0 where
  made : Made new_graph
  added :
      {g g' : Graph} (id name : String) (deps : List String)
      → Made g
      → add_node g id name deps ≡ ok g'
      → Made g'
  removed : {g : Graph} (id : String) → Made g → Made (remove_node g id)

-- Whatever calls of AddNode and RemoveNode a new graph gets, in any order, of nodes that are there or
-- not: the graph stays well formed, that is, each node stands once and under its own ID, and a node
-- is among another's dependents no more often than it names the other among its dependencies.
pub Made-IsWellFormed : {g : Graph} → Made g → IsWellFormed g
Made-IsWellFormed made = new_graph-IsWellFormed
Made-IsWellFormed (added {g} {g'} id name deps m e) =
    add_node-IsWellFormed g g' id name deps e (Made-IsWellFormed m)
Made-IsWellFormed (removed {g} id m) = remove_node-IsWellFormed g id (Made-IsWellFormed m)

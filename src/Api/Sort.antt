-- ===== src/Api/Sort.antt =====
-- librange/core/read_api.cpp: `environment_topological_sort` and the frames of its depth-first search.
use rangexx.Base.{
  ℕ, zero, suc, true, false, not, ◌||◌, Option, List, [], ◌∷◌, Str, codes, str_eq, if◌then◌else◌,
}
use rangexx.Base.Results.{Result, ok, throw, ◌>>=◌, graph_cycle, Kind}
use rangexx.Search.Loop.{depth, push_all, seen, search}
use rangexx.Node.Info.{environment, cluster, type_eq}
use rangexx.Graph.Interface.{NodeIface, GraphInterface}
use rangexx.Api.Lookup.{required, names_under}
use rangexx.Api.Searches.{never, visited_of, pointed}

-- A frame: the node, and those of its edges that were not taken yet, the next one first.
abbrev pub Frame : Type 0 → Type 0
Frame V = V × List V

module _ {V : Type 0} (node : NodeIface V) where
  -- The edges that a frame takes.
  unfoldable pub out_edges : V → List V
  unfolding type_eq
  out_edges v =
      if type_eq (node.type v) cluster || type_eq (node.type v) environment
      then node.forward_edges v
      else []

  -- `pop_out` takes the last edge first.
  unfoldable pub frame : V → Frame V
  unfolding out_edges push_all
  frame v = (v, push_all depth (out_edges v) [])

  unfoldable pub erase : V → List V → List V
  unfolding str_eq
  erase v [] = []
  erase v (u ∷ us) =
      let rest = erase v us in if str_eq (node.name v) (node.name u) then rest else u ∷ rest

  abbrev pub marked : V → List V → List V
  marked v onstack = if seen node.name v onstack then onstack else v ∷ onstack

-- `sorted` has the names of the nodes in `visited`, in the order in which these were visited. Both get
-- the same nodes at the same place, so they are one list here, with the last node first: the order
-- after the `std::reverse` at the end.
pub record Marks (V : Type 0) : Type 0 where
  pub visited : List V
  pub visiting : List V

-- The node of a frame without edges left.
abbrev pub done : {V : Type 0} → NodeIface V → Marks V → V → Marks V
done node m v = record { visited = v ∷ m.visited; visiting = erase node v m.visiting }

module _ {V : Type 0} (node : NodeIface V) (root : V) where
  -- The loop on the stack of one root.
  unfoldable pub sort_from : ℕ → Marks V → List V → List (Frame V) → Result (Marks V)
  unfolding seen frame erase
  sort_from fuel m onstack [] = ok m
  sort_from zero m onstack (f ∷ stack) = throw Kind.out_of_fuel []
  sort_from (suc fuel) m onstack ((v, out) ∷ stack) = elim (seen node.name root m.visited) [
    | true ↦ sort_from fuel m onstack stack
    | false ↦ elim out [
      | [] ↦ sort_from fuel (done node m v) (erase node v (marked node v onstack)) stack
      | (e ∷ es) ↦ elim (seen node.name e (marked node v onstack)) [
        | true ↦ throw graph_cycle (codes "dependency cycle detected")
        | false ↦ elim (seen node.name e m.visited || seen node.name e m.visiting) [
          | true ↦ sort_from fuel m (marked node v onstack) ((v, es) ∷ stack)
          | false ↦
              sort_from fuel (record { visited = m.visited; visiting = v ∷ m.visiting })
                (marked node v onstack) (frame node e ∷ (v, es) ∷ stack)
        ]
      ]
    ]
  ]

module _ {V : Type 0} (node : NodeIface V) (fuel : ℕ) where
  -- The loop over `dependency_nodes`.
  unfoldable pub sort_all : List (Option V) → Marks V → Result (Marks V)
  unfolding sort_from frame
  sort_all [] m = ok m
  sort_all (o ∷ os) m = pointed o >>= λ n.
      sort_from node n fuel (record { visited = m.visited; visiting = n ∷ m.visiting }) []
        (frame node n ∷ [])
      >>= sort_all os

module _ {V W : Type 0} (g : GraphInterface V) (dependency : GraphInterface W) where
  -- What the search of the primary graph collects; `visited` has the last node first.
  unfoldable pub dependency_nodes : List V → List (Option W) → List (Option W)
  unfolding type_eq
  dependency_nodes [] found = found
  dependency_nodes (v ∷ visited) found = dependency_nodes visited (
      if not (type_eq (g.node.type v) environment)
      then dependency.get_node (g.node.name v) ∷ found
      else found)

module _ {V W : Type 0} (g : GraphInterface V) (dependency : GraphInterface W) (fuel : ℕ) where
  unfoldable pub environment_topological_sort : Str → Result (List Str)
  unfolding search dependency_nodes sort_all
  environment_topological_sort env_name = required env_name (g.get_node env_name) >>= λ n.
      visited_of (search g.node.name g.node.forward_edges depth never fuel [] (n ∷ []))
      >>= λ visited.
          sort_all dependency.node fuel (dependency_nodes g dependency visited [])
            (record { visited = []; visiting = [] })
          >>= λ m. ok (names_under dependency env_name m.visited)

-- ===== src/Api/Searches.antt =====
-- librange/core/read_api.cpp: the searches along the edges of the primary graph.
use rangexx.Base.{ℕ, Bool, true, false, Option, none, some, List, [], ◌∷◌, Str, if◌then◌else◌}
use rangexx.Base.Results.{Result, ok, throw, ◌>>=◌, null_pointer, Kind}
use rangexx.Search.Loop.{
  Strategy, breadth, depth, Outcome, ended, stopped, out_of_fuel, seen, search,
}
use rangexx.Node.Info.{NodeType, cluster, type_eq}
use rangexx.Node.Tags.{find}
use rangexx.Graph.Interface.{NodeIface, GraphInterface, node_type_names}
use rangexx.Api.Names.{unprefix_node_name, prefixed_node_name}
use rangexx.Api.Lookup.{get_node, required, all_environments, names_under, lookup}

-- `found`, in the order of the visits: `visited` has the last of them first.
unfoldable pub found_of_type : {V : Type 0} → NodeIface V → NodeType → List V → List V → List V
unfolding type_eq
found_of_type node type [] found = found
found_of_type node type (v ∷ visited) found =
    found_of_type node type visited (if type_eq (node.type v) type then v ∷ found else found)

abbrev pub never : {V : Type 0} → V → Bool
never v = false

abbrev pub visited_of : {V : Type 0} → Outcome V → Result (List V)
visited_of (ended visited) = ok visited
visited_of (stopped v visited) = ok visited
visited_of out_of_fuel = throw Kind.out_of_fuel []

abbrev pub has_value : Option (List Str) → Bool
has_value none = false
has_value (some values) = true

abbrev pub values_or : Option (List Str) → List Str
values_or none = []
values_or (some values) = values

abbrev pub pointed : {V : Type 0} → Option V → Result V
pointed none = throw null_pointer []
pointed (some n) = ok n

module _ {V : Type 0} (g : GraphInterface V) where
  abbrev pub has_key : Str → V → Bool
  has_key key v = has_value (find key (g.node.tags v))

  -- `found_in` and `found`
  abbrev pub first_key : Str → Str → Outcome V → Result (Str × List Str)
  first_key env_name key (stopped v visited) =
      ok (unprefix_node_name env_name (g.node.name v), values_or (find key (g.node.tags v)))
  first_key env_name key (ended visited) = ok ([], [])
  first_key env_name key out_of_fuel = throw Kind.out_of_fuel []

  -- The type and the name of a node.
  abbrev pub row : V → Str × Str
  row v = (node_type_names (g.node.type v), g.node.name v)

  unfoldable pub orphans_among : List V → List V → List (Str × Str)
  unfolding seen node_type_names
  orphans_among visited [] = []
  orphans_among visited (v ∷ vs) =
      let rest = orphans_among visited vs in
      if seen g.node.name v visited then rest else row v ∷ rest

module _ {V : Type 0} (g : GraphInterface V) (fuel : ℕ) where
  unfoldable pub all_clusters : Str → Result (List Str)
  unfolding search found_of_type unprefix_node_name
  all_clusters env_name = required env_name (g.get_node env_name) >>= λ n.
      visited_of (search g.node.name g.node.forward_edges depth never fuel [] (n ∷ []))
      >>= λ visited. ok (names_under g env_name (found_of_type g.node cluster visited []))

  unfoldable pub search_parents : Strategy → Str → Str → Str → Result (Str × List Str)
  unfolding get_node search unprefix_node_name prefixed_node_name find
  search_parents s env_name node_name key = lookup g env_name node_name >>= λ n.
      first_key g env_name key
        (search g.node.name g.node.reverse_edges s (has_key g key) fuel [] (n ∷ []))

  unfoldable pub bfs_search_parents_for_first_key : Str → Str → Str → Result (Str × List Str)
  unfolding search_parents
  bfs_search_parents_for_first_key = search_parents breadth

  unfoldable pub dfs_search_parents_for_first_key : Str → Str → Str → Result (Str × List Str)
  unfolding search_parents
  dfs_search_parents_for_first_key = search_parents depth

  -- The loop of `find_orphaned_nodes` over the names of the environments.
  unfoldable pub visit_envs : List Str → List V → Result (List V)
  unfolding search
  visit_envs [] visited = ok visited
  visit_envs (env ∷ envs) visited = pointed (g.get_node env) >>= λ n.
      visited_of (search g.node.name g.node.forward_edges depth never fuel visited (n ∷ []))
      >>= visit_envs envs

  unfoldable pub find_orphaned_nodes : Result (List (Str × Str))
  unfolding visit_envs orphans_among all_environments
  find_orphaned_nodes =
      visit_envs (all_environments g) [] >>= λ visited. ok (orphans_among g visited g.nodes)

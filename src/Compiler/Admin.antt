-- ===== src/Compiler/Admin.antt =====
-- librange/compiler/expanding_visitor.cpp, `ASTAdmin`: the nearest node above that names admins.
use rangexx.Base.{
  ℕ, Bool, Option, none, some, List, [], ◌∷◌, ◌++◌, map, Str, codes, elem, if◌then◌else◌,
}
use rangexx.Base.Results.{Result, ok, throw, ◌>>=◌, invalid_range_expression, Kind}
use rangexx.Search.Loop.{breadth, Outcome, ended, stopped, out_of_fuel, search}
use rangexx.Node.Tags.{find}
use rangexx.Graph.Interface.{NodeIface, GraphInterface}
use rangexx.Api.Searches.{has_key, values_or}
use rangexx.Compiler.Handlers.{Vertex, Graph, prefix_child}

-- What the handlers read of a node, by names.
abbrev pub vertex_of : {V : Type 0} → NodeIface V → Option V → Option Vertex
vertex_of node none = none
vertex_of node (some v) = some (record {
  forward_edges = map node.name (node.forward_edges v);
  reverse_edges = map node.name (node.reverse_edges v);
  tags = node.tags v;
})

abbrev pub names_of : {V : Type 0} → GraphInterface V → Graph
names_of g name = vertex_of g.node (g.get_node name)

-- The text of the exception stands without the name of the child.
abbrev pub cannot_resolve : {A : Type 0} → Result A
cannot_resolve = throw invalid_range_expression (codes "cannot resolve node")

abbrev pub resolved : {A : Type 0} → Option A → Result A
resolved none = cannot_resolve
resolved (some a) = ok a

-- `found_admins`: a set of texts; its order is not specified.
unfoldable pub add_admins : List Str → List Str → List Str
unfolding elem
add_admins [] found = found
add_admins (a ∷ as') found = add_admins as' (if elem a found then found else found ++ a ∷ [])

abbrev pub admin_tag : Str
admin_tag = codes "ADMIN_NODE"

module _ {V : Type 0} (g : GraphInterface V) (fuel : ℕ) (prefix : Str) where
  abbrev pub names_admins : V → Bool
  names_admins v = has_key g admin_tag v

  -- What one search adds.
  abbrev pub admins_at : Outcome V → Result (List Str)
  admins_at (ended visited) = ok []
  admins_at (stopped v visited) = ok (values_or (find admin_tag (g.node.tags v)))
  admins_at out_of_fuel = throw Kind.out_of_fuel []

  unfoldable pub nearest_admins : V → Result (List Str)
  unfolding search find
  nearest_admins n =
      admins_at (search g.node.name g.node.reverse_edges breadth names_admins fuel [] (n ∷ []))

  -- The loop over the children.
  unfoldable pub find_admins : List Str → List Str → Result (List Str)
  unfolding prefix_child nearest_admins add_admins
  find_admins [] found = ok found
  find_admins (child ∷ children) found =
      resolved (g.get_node (prefix_child (names_of g) prefix child)) >>= λ n.
      nearest_admins n >>= λ values. find_admins children (add_admins values found)

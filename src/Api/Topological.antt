-- ===== src/Api/Topological.antt =====
-- What `environment_topological_sort` gives.
use rangexx.Base.{ℕ, ◌+◌, ◌*◌, ◌≤◌, ◌≡◌, ◌⊎◌, true, false, Option, none, some, List, [], ◌∷◌, Str}
use rangexx.Base.Results.{Result, ok, err, node_not_found, null_pointer, graph_cycle}
use rangexx.Search.Loop.{seen}
use rangexx.Search.Ends.{weight, IsNamed}
use rangexx.Search.Reach.{In, Distinct, Reaches}
use rangexx.Search.Explored.{Explored}
use rangexx.Node.Info.{environment, type_eq}
use rangexx.Graph.Interface.{GraphInterface}
use rangexx.Api.Lookup.{names_under}
use rangexx.Api.Searches.{never}
use rangexx.Api.Found.{Alike, Finite}
use rangexx.Api.Sort.{Marks, out_edges, sort_all, dependency_nodes}
use rangexx.Api.Frames.{Ordered}
use rangexx.Api.Roots.{IsNamed-out_edges}
use rangexx.Api.Sorted.{Cycle}

module _ {V W : Type 0} (g : GraphInterface V) (dependency : GraphInterface W) where
  abbrev down : V → List V
  down = g.node.forward_edges

  -- A node below `n` that is no environment.
  pub record Member (n v : V) : Type 0 where
    pub path : Reaches g.node.name down (n ∷ []) v
    pub no_env : type_eq (g.node.type v) environment ≡ false

  abbrev pub Wanted : V → W → Type 0
  Wanted n d = (v : V) × (Member n v × (dependency.get_node (g.node.name v) ≡ some d))

  -- Every member is listed; what is listed is a member or what the edges of one lead to; no name is
  -- listed twice; and every edge leads to a node that is listed later. The edges are the `out_edges`, those
  -- of CLUSTERs and ENVIRONMENTs only.
  pub record DependentsFirst (n : V) (order : List W) : Type 0 where
    pub members :
        (v : V)
        → Member n v
        → (d : W) × ((dependency.get_node (g.node.name v) ≡ some d)
            × (seen dependency.node.name d order ≡ true))
    pub sound :
        (d : W)
        → In d order
        → (r : W) × (Wanted n r
            × Reaches dependency.node.name (out_edges dependency.node) (r ∷ []) d)
    pub once : Distinct dependency.node.name order
    pub ordered : Ordered dependency.node order

  abbrev pub SortSpec : Str → Option V → Result (List Str) → Type 0
  SortSpec env_name none (ok names) = ⊥
  SortSpec env_name none (err x) = x ≡ record { kind = node_not_found; what = env_name }
  SortSpec env_name (some n) (ok names) =
      (order : List W) × ((names ≡ names_under dependency env_name order) × DependentsFirst n order)
  SortSpec env_name (some n) (err x) =
      ((x.kind ≡ null_pointer)
        × ((v : V) × (Member n v × (dependency.get_node (g.node.name v) ≡ none))))
      ⊎ ((x.kind ≡ graph_cycle)
          × ((roots : List W) × (((d : W) → In d roots → Wanted n d)
                × Cycle dependency.node roots)))

  module _ (alike : Alike g.node) (alike_dependency : Alike dependency.node) (fuel : ℕ)
      (us : List V) (finite : Finite g down fuel us) (ws : List W)
      (finite_dependency : Finite dependency (out_edges dependency.node) fuel ws)
      (enough : 2 * weight dependency.node.name (out_edges dependency.node) [] ws + 1 ≤ fuel) where
    module _ (n : V) (visited : List V)
        (explored : Explored g.node.name down never (n ∷ []) visited) where
      abbrev os : List (Option W)
      os = dependency_nodes g dependency visited []

      abbrev sorted : Result (Marks W)
      sorted = sort_all dependency.node fuel os (record { visited = []; visiting = [] })

      abbrev same : IsNamed dependency.node.name (out_edges dependency.node)
      same = IsNamed-out_edges dependency.node alike_dependency

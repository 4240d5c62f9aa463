-- ===== src/Api/Orphans.antt =====
-- What `find_orphaned_nodes` lists.
use rangexx.Base.{◌≡◌, List, Str}
use rangexx.Base.Results.{Result, ok, err}
use rangexx.Search.Reach.{In}
use rangexx.Graph.Interface.{GraphInterface}
use rangexx.Api.Lookup.{all_environments}
use rangexx.Api.Searches.{row}
use rangexx.Api.Visits.{Led, Visits}

module _ {V : Type 0} (g : GraphInterface V) where
  abbrev name : V → Str
  name = g.node.name

  abbrev down : V → List V
  down = g.node.forward_edges

  -- Rows for nodes of the graph that no environment leads to, and for all of them.
  pub record Orphans (rows : List (Str × Str)) : Type 0 where
    pub sound :
        (r : Str × Str)
        → In r rows
        → (v : V) × (In v g.nodes
            × ((r ≡ row g v) × (Led g (all_environments g) (g.node.name v) → ⊥)))
    pub complete :
        (v : V)
        → In v g.nodes
        → (Led g (all_environments g) (g.node.name v) → ⊥)
        → In (row g v) rows

  abbrev pub OrphansSpec : Result (List (Str × Str)) → Type 0
  OrphansSpec (ok rows) = Orphans rows
  OrphansSpec (err e) = ⊥

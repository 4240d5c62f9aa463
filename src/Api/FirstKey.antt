-- ===== src/Api/FirstKey.antt =====
-- What the searches of the parents for a key find.
use mathlib.Core.Path.{subst}
use rangexx.Base.{
  ℕ, ◌≡◌, refl, ap, ◌⊎◌, inl, inr, true, false, Option, none, some, List, [], ◌∷◌, Str, arith,
  Option-cases,
}
use rangexx.Base.Results.{Result, ok, err, ◌>>=◌}
use rangexx.Search.Loop.{
  Strategy, breadth, depth, Outcome, ended, stopped, out_of_fuel, seen, search,
}
use rangexx.Search.Reach.{All-at, Reaches}
use rangexx.Search.Explored.{Explored, SearchSpec, search_lem}
use rangexx.Search.More.{seen-found}
use rangexx.Search.Nearest.{Nearest, nearest_lem}
use rangexx.Node.Tags.{find}
use rangexx.Graph.Interface.{GraphInterface}
use rangexx.Api.Names.{unprefix_node_name, prefixed_node_name}
use rangexx.Api.Lookup.{get_node, lookup, required}
use rangexx.Api.Searches.{
  has_key, has_value, values_or, search_parents, first_key, bfs_search_parents_for_first_key,
  dfs_search_parents_for_first_key,
}
use rangexx.Api.Picks.{Picked, GetNodeSpec, get_node_lem}
use rangexx.Api.Found.{Alike, Finite}

ok_eq : {A : Type 0} {a b : A} → ok a ≡ ok b → a ≡ b
ok_eq h = cc

module _ {V : Type 0} (g : GraphInterface V) (env_name key : Str) where
  abbrev name : V → Str
  name = g.node.name

  abbrev up : V → List V
  up = g.node.reverse_edges

  -- A node has the key, with these values, and this is its name.
  pub record Holds (v : V) (r : Str × List Str) : Type 0 where
    pub values : find key (g.node.tags v) ≡ some r.1
    pub named : r.0 ≡ unprefix_node_name env_name (g.node.name v)

  -- No node that can be reached upwards from `n` has the key, and the result is empty.
  pub record Lacks (n : V) (r : Str × List Str) : Type 0 where
    pub none_has :
        (v : V)
        → Reaches g.node.name g.node.reverse_edges (n ∷ []) v
        → find key (g.node.tags v) ≡ none
    pub empty : r ≡ ([], [])

  -- The result of a search from the node that is looked up, in terms of the node that is found.
  abbrev pub KeySpec : (V → V → Type 0) → Result V → Result (Str × List Str) → Type 0
  KeySpec P (ok n) (ok r) = ((v : V) × (P n v × Holds v r)) ⊎ Lacks n r
  KeySpec P (ok n) (err e) = ⊥
  KeySpec P (err e) (ok r) = ⊥
  KeySpec P (err e) (err f) = e ≡ f

  pub holds :
      (v : V)
      → has_key g key v ≡ true
      → Holds v (unprefix_node_name env_name (name v), values_or (find key (g.node.tags v)))
  holds v h = elim (Option-cases (find key (g.node.tags v))) [
    | inl e ↦ absurd (ground (arith, h, e))
    | inr (values, e) ↦ record { values = rw e refl; named = refl }
  ]

  -- A search that does not stop at the key leaves no node that has it.
  pub none_has :
      (alike : Alike g.node) (starts visited : List V)
      → Explored name up (has_key g key) starts visited
      → (v : V) → Reaches name up starts v
      → find key (g.node.tags v) ≡ none
  none_has alike starts visited p v r =
      let (w, (i, same)) = seen-found name v visited (p.complete v r) in
      let passed : has_key g key w ≡ false =
        All-at (λ u. has_key g key u ≡ false) visited w p.passed i in
      ground (
        arith,
        passed,
        ap (find key) (alike.tags v w same),
        Option-cases (find key (g.node.tags v)),
      )

  -- What is reported, given how the search ended.
  reported :
      (P : V → V → Type 0) (alike : Alike g.node) (n : V) (o : Outcome V)
      → SearchSpec name up (has_key g key) (n ∷ []) o
      → ((v : V) (visited : List V) → o ≡ stopped v visited → Reaches name up (n ∷ []) v → P n v)
      → KeySpec P (ok n) (first_key g env_name key o)
  reported P alike n (ended visited) p near =
      inr record { none_has = none_has alike (n ∷ []) visited p; empty = refl }
  reported P alike n (stopped v visited) p near = inl (v, (near v visited refl p.0, holds v p.1))
  reported P alike n out_of_fuel p near = p

  pub lookup-Within :
      (us : List V) (fuel : ℕ) (finite : Finite g up fuel us) (node_name : Str) (n : V)
      → lookup g env_name node_name ≡ ok n
      → seen name n us ≡ true
  lookup-Within us fuel finite node_name n h =
      by_result (get_node g env_name node_name) (get_node_lem g env_name node_name) h
    where
      picked : (v : V) → Picked g env_name node_name v → seen name v us ≡ true
      picked v (Picked.env h q t) = finite.looked_up env_name v q
      picked v (Picked.leaf h q t) = finite.looked_up node_name v q
      picked v (Picked.member h q) = finite.looked_up (prefixed_node_name env_name node_name) v q
      picked v (Picked.bare h q r t) = finite.looked_up node_name v r

      by_result :
          (r : Result (Option V))
          → GetNodeSpec g env_name node_name r
          → (r >>= required (prefixed_node_name env_name node_name)) ≡ ok n
          → seen name n us ≡ true
      by_result (ok none) p h = ground (arith, h)
      by_result (ok (some v)) p h = subst (λ u. seen name u us ≡ true) (ok_eq h) (picked v p)
      by_result (err e) p h = ground (arith, h)

  searched :
      (s : Strategy) (P : V → V → Type 0) (alike : Alike g.node) (fuel : ℕ) (us : List V)
      → Finite g up fuel us
      → ((n v : V) (visited : List V)
          → search name up s (has_key g key) fuel [] (n ∷ []) ≡ stopped v visited
          → Reaches name up (n ∷ []) v
          → P n v)
      → (node_name : Str)
      → KeySpec P (lookup g env_name node_name) (search_parents g fuel s env_name node_name key)
  unfolding search_parents
  searched s P alike fuel us finite near node_name =
      by_lookup (lookup g env_name node_name) (λ n. lookup-Within us fuel finite node_name n)
    where
      by_lookup :
          (r : Result V)
          → ((n : V) → r ≡ ok n → seen name n us ≡ true)
          → KeySpec P r (
              r >>= λ n.
              first_key g env_name key (search name up s (has_key g key) fuel [] (n ∷ [])))
      by_lookup (err e) h = refl
      by_lookup (ok n) h =
          reported P alike n (search name up s (has_key g key) fuel [] (n ∷ []))
            (search_lem name up alike.reverse us finite.closed s (has_key g key) fuel (n ∷ [])
              (h n refl, tt) finite.enough)
            (near n)

  abbrev pub Above : V → V → Type 0
  Above n v = Reaches g.node.name g.node.reverse_edges (n ∷ []) v

  abbrev pub NearestAbove : V → V → Type 0
  NearestAbove n v = Nearest g.node.name g.node.reverse_edges (has_key g key) (n ∷ []) v

module _ {V : Type 0} (g : GraphInterface V) where
  -- In a finite graph, the breadth-first search for a key throws what the lookup of the node throws.
  -- Else it ends, with the name and the values of a node that has the key and is as near, upwards from
  -- the node, as any that has it; or with nothing, and then no node above has the key.
  pub bfs_lem :
      (alike : Alike g.node) (fuel : ℕ) (us : List V)
      → Finite g g.node.reverse_edges fuel us
      → (env_name node_name key : Str)
      → KeySpec g env_name key
          (NearestAbove g env_name key)
          (lookup g env_name node_name)
          (bfs_search_parents_for_first_key g fuel env_name node_name key)
  unfolding bfs_search_parents_for_first_key
  bfs_lem alike fuel us finite env_name node_name key =
      searched g env_name key breadth (NearestAbove g env_name key) alike fuel us finite
        (λ n v visited h r.
          nearest_lem g.node.name g.node.reverse_edges alike.reverse (has_key g key)
            (λ u w e. ap (λ t. has_value (find key t)) (alike.tags u w e)) (n ∷ []) fuel v visited
            h)
        node_name

  -- In a finite graph, the depth-first search for a key throws what the lookup of the node throws.
  -- Else it ends, with the name and the values of a node that has the key and can be reached upwards
  -- from the node; or with nothing, and then no such node has the key.
  pub dfs_lem :
      (alike : Alike g.node) (fuel : ℕ) (us : List V)
      → Finite g g.node.reverse_edges fuel us
      → (env_name node_name key : Str)
      → KeySpec g env_name key
          (Above g env_name key)
          (lookup g env_name node_name)
          (dfs_search_parents_for_first_key g fuel env_name node_name key)
  unfolding dfs_search_parents_for_first_key
  dfs_lem alike fuel us finite env_name node_name key =
      searched g env_name key depth (Above g env_name key) alike fuel us finite
        (λ n v visited h r. r) node_name

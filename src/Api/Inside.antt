-- ===== src/Api/Inside.antt =====
-- The search of `remove_host` for the environment of the host.
use rangexx.Base.{
  ℕ, ◌+◌, ◌≤◌, ◌≡◌, ◌≢◌, refl, sym, ap, ◌∙◌, Bool, true, false, not, List, [], ◌∷◌, Str, str_eq,
  if◌then◌else◌, Bool-apart,
}
use rangexx.Base.Results.{Result, ok, err, Kind}
use rangexx.Search.Loop.{depth, Outcome, ended, stopped, out_of_fuel, search}
use rangexx.Search.Ends.{weight, IsClosed, IsNamed, Within}
use rangexx.Search.Reach.{Reaches}
use rangexx.Search.Explored.{Explored, SearchSpec, search_lem}
use rangexx.Node.Info.{environment, type_eq}
use rangexx.Graph.Interface.{NodeIface}
use rangexx.Api.Action.{pure, raise_if}
use rangexx.Api.Backend.{primary, Backend}
use rangexx.Api.Requests.{Client}
use rangexx.Api.Write.Hosts.{judged, is_environment, is_empty, expect_inside}

module _ {V : Type 0} (node : NodeIface V) where
  -- An environment above the node.
  pub record Above (n v : V) : Type 0 where
    pub path : Reaches node.name node.reverse_edges (n ∷ []) v
    pub type : type_eq (node.type v) environment ≡ true

  abbrev is_env : V → Bool
  is_env v = type_eq (node.type v) environment

  -- The host has parents, and the depth-first search comes to `v` before any other environment.
  pub record First (fuel : ℕ) (n v : V) : Type 0 where
    pub parents : node.reverse_edges n ≢ []
    pub found :
        (visited : List V) × (search node.name node.reverse_edges depth is_env fuel [] (n ∷ [])
          ≡ stopped v visited)
    pub above : Above n v

  -- The host has no parents; or no environment is among it and the nodes above it, which are those
  -- that were visited, by name; or the first one that the search comes to is the named one.
  pub data Passes (fuel : ℕ) (env_name : Str) (n : V) : Type 0 where
    orphan : node.reverse_edges n ≡ [] → Passes fuel env_name n
    outside :
        {visited : List V}
        → node.reverse_edges n ≢ []
        → Explored node.name node.reverse_edges is_env (n ∷ []) visited
        → Passes fuel env_name n
    inside :
        {v : V} → First fuel n v → str_eq env_name (node.name v) ≡ true → Passes fuel env_name n

  abbrev pub InsideSpec : ℕ → Str → V → Result Unit → Type 0
  InsideSpec fuel env_name n (ok t) = Passes fuel env_name n
  InsideSpec fuel env_name n (err e) =
      (e ≡ record { kind = Kind.invalid_environment; what = env_name })
      × ((v : V) × (First fuel n v × (str_eq env_name (node.name v) ≡ false)))

module _ {S V : Type 0} (b : Backend S V) (c : Client) where
  -- If the nodes above the host are finitely many, with fuel for their edges, and nodes of one
  -- name have the same parents, `remove_host` ends its search, and the state is as before. It goes
  -- on exactly if the host has no parents, whatever the host itself is; or if it has some and no
  -- environment is among it and the nodes above it; or if it has some and the first environment
  -- that the depth-first search comes to has the given name. Else the first one has another name,
  -- and it throws that the given environment is invalid.
  pub expect_inside_lem :
      (fuel : ℕ) (env_name : Str) (n : V) (s : S) (us : List V)
      → IsNamed (b.graph primary s).node.name (b.graph primary s).node.reverse_edges
      → IsClosed (b.graph primary s).node.name (b.graph primary s).node.reverse_edges us
      → Within (b.graph primary s).node.name (b.graph primary s).node.reverse_edges us n
      → weight (b.graph primary s).node.name (b.graph primary s).node.reverse_edges [] us + 1 ≤ fuel
      → InsideSpec (b.graph primary s).node fuel env_name n (expect_inside b c fuel env_name n s).0
        × ((expect_inside b c fuel env_name n s).1 ≡ s)
  unfolding expect_inside
  expect_inside_lem fuel env_name n s us same closed within enough =
      by_parents (node.reverse_edges n) refl
    where
      node : NodeIface V
      node = (b.graph primary s).node

      outcome : Outcome V
      outcome =
          search node.name node.reverse_edges depth (is_environment b c fuel node) fuel [] (n ∷ [])

      by_name :
          (v : V)
          → First node fuel n v
          → (x : Bool) → str_eq env_name (node.name v) ≡ x
          → InsideSpec node fuel env_name n (raise_if (not x) Kind.invalid_environment env_name s).0
            × ((raise_if (not x) Kind.invalid_environment env_name s).1 ≡ s)
      by_name v a true e = (Passes.inside a e, refl)
      by_name v a false e = ((refl, (v, (a, e))), refl)

      by_outcome :
          (o : Outcome V)
          → outcome ≡ o
          → node.reverse_edges n ≢ []
          → SearchSpec node.name node.reverse_edges (is_environment b c fuel node) (n ∷ []) o
          → InsideSpec node fuel env_name n (judged b c fuel env_name node o s).0
            × ((judged b c fuel env_name node o s).1 ≡ s)
      by_outcome (ended visited) q h p = unfold judged in (Passes.outside h p, refl)
      by_outcome (stopped v visited) q h p =
          unfold judged in
          by_name v
            (record {
              parents = h;
              found = (visited, q);
              above = record { path = p.0; type = p.1 };
            })
            (str_eq env_name (node.name v)) refl
      by_outcome out_of_fuel q h p = absurd p

      by_parents :
          (ps : List V)
          → node.reverse_edges n ≡ ps
          → InsideSpec node fuel env_name n
              ((if is_empty ps then pure tt else judged b c fuel env_name node outcome) s).0
            × (((if is_empty ps then pure tt else judged b c fuel env_name node outcome) s).1 ≡ s)
      by_parents [] e = (Passes.orphan e, refl)
      by_parents (p ∷ ps) e =
          by_outcome outcome refl (λ h. Bool-apart (sym (ap is_empty (sym e ∙ h))))
            (search_lem node.name node.reverse_edges same us closed depth
              (is_environment b c fuel node) fuel (n ∷ []) (within, tt) enough)

-- ===== src/Api/Write/Hosts.antt =====
-- librange/core/write_api.cpp: hosts. `fuel` is that of the search in `remove_host`.
use rangexx.Base.{
  ℕ, Bool, true, false, not, ◌&&◌, Option, none, some, List, [], ◌∷◌, ◌++◌, Str, codes, str_eq,
  if◌then◌else◌,
}
use rangexx.Base.Results.{node_not_found, edge_not_found, node_exists, invalid_environment, Kind}
use rangexx.Search.Loop.{depth, Outcome, ended, stopped, out_of_fuel, search}
use rangexx.Node.Info.{cluster, host, environment, type_eq}
use rangexx.Graph.Interface.{NodeIface}
use rangexx.Api.Names.{hash, first_of, prefixed_node_name}
use rangexx.Api.Action.{Action, pure, raise, ◌>>=◌, ◌>>◌, gets, raise_if, or_raise, scope}
use rangexx.Api.Backend.{Which, primary, dependency, Backend}
use rangexx.Api.Requests.{Client}
use rangexx.Api.Write.Steps.{
  in_txn, find_node, expect, create_typed, create_missing, add_dependency, linked, unlinked_back,
  remove_both, submit,
}
use rangexx.Api.Write.Clusters.{expect_if}

-- Is some cluster among the nodes one whose name has another prefix?
unfoldable pub foreign : {V : Type 0} → NodeIface V → Str → List V → Bool
unfolding type_eq first_of str_eq
foreign node env_name [] = false
foreign node env_name (v ∷ vs) =
    let rest = foreign node env_name vs in
    if type_eq (node.type v) cluster
      && not (str_eq (first_of (env_name ++ hash ∷ []) (node.name v)) (env_name ++ hash ∷ []))
    then true
    else rest

abbrev is_there {ℓ} : {A : Type ℓ} → Option A → Bool
is_there none = false
is_there (some a) = true

abbrev pub is_empty {ℓ} : {A : Type ℓ} → List A → Bool
is_empty [] = true
is_empty (x ∷ xs) = false

module _ {S V : Type 0} (b : Backend S V) (c : Client) (fuel : ℕ) where
  -- A host that is there already must not be in a cluster of another environment.
  unfoldable pub expect_own : Str → Str → Option V → Action S Unit
  unfolding foreign
  expect_own env_name hostname none = pure tt
  expect_own env_name hostname (some n) = do
    node ← gets (λ s. (b.graph primary s).node)
    raise_if (foreign node env_name (node.reverse_edges n)) invalid_environment
        (hostname ++ codes " exists in another environment")

  unfoldable pub add_host_to_cluster : Str → Str → Str → ℕ → Action S Bool
  unfolding submit expect expect_if expect_own create_missing add_dependency prefixed_node_name
      scope
  add_host_to_cluster env_name parent_cluster hostname id = in_txn b primary (
      in_txn b dependency (do
        p ← find_node b primary (prefixed_node_name env_name parent_cluster)
        parent ← or_raise p node_not_found (prefixed_node_name env_name parent_cluster)
        n ← find_node b primary hostname
        expect b primary parent cluster parent_cluster
        expect_if b c n host hostname
        submit b c (codes "add_host_to_cluster") (env_name ∷ parent_cluster ∷ hostname ∷ []) id (do
          expect_own env_name hostname n
          m ← create_missing b primary hostname host n
          added ← linked b parent m
          raise_if (not added) node_exists hostname
          add_dependency b hostname host
          pure true)))

  unfoldable pub remove_host_from_cluster : Str → Str → Str → ℕ → Action S Bool
  unfolding submit expect prefixed_node_name scope
  remove_host_from_cluster env_name parent_cluster hostname id = in_txn b primary (do
    p ← find_node b primary (prefixed_node_name env_name parent_cluster)
    o ← find_node b primary hostname
    parent ← or_raise p node_not_found (prefixed_node_name env_name parent_cluster)
    n ← or_raise o node_not_found (prefixed_node_name env_name hostname)
    expect b primary parent cluster parent_cluster
    expect b primary n host hostname
    submit b c (codes "remove_host_from_cluster") (env_name ∷ parent_cluster ∷ hostname ∷ []) id (do
      gone ← unlinked_back b n parent
      raise_if (not gone) edge_not_found hostname
      pure true))

  -- The body of the loop in `add_host`.
  unfoldable pub add_host_to : Which → Str → Action S V
  unfolding create_typed
  add_host_to w hostname = do
    o ← find_node b w hostname
    name ← gets (λ s. elim o [ none ↦ hostname | some n ↦ (b.graph w s).node.name n ])
    raise_if (is_there o) node_exists name
    create_typed b w hostname host

  unfoldable pub add_host : Str → ℕ → Action S Bool
  unfolding submit add_host_to scope
  add_host hostname id = submit b c (codes "add_host") (hostname ∷ []) id (do
    in_txn b primary (add_host_to primary hostname)
    in_txn b dependency (add_host_to dependency hostname)
    pure true)

  -- How the search upwards from the host ends: at the first environment that it comes to.
  unfoldable pub judged : Str → NodeIface V → Outcome V → Action S Unit
  unfolding str_eq
  judged env_name node (ended visited) = pure tt
  judged env_name node (stopped v visited) =
      raise_if (not (str_eq env_name (node.name v))) invalid_environment env_name
  judged env_name node out_of_fuel = raise Kind.out_of_fuel []

  abbrev pub is_environment : NodeIface V → V → Bool
  is_environment node v = type_eq (node.type v) environment

  unfoldable pub expect_inside : Str → V → Action S Unit
  unfolding judged search type_eq
  expect_inside env_name n = do
    node ← gets (λ s. (b.graph primary s).node)
    (if is_empty (node.reverse_edges n)
        then pure tt
        else judged env_name node
            (search node.name node.reverse_edges depth (is_environment node) fuel [] (n ∷ [])))

  unfoldable pub remove_host : Str → Str → ℕ → Action S Bool
  unfolding submit expect_inside remove_both scope
  remove_host env_name hostname id = in_txn b primary (
      in_txn b dependency (do
        o ← find_node b primary hostname
        n ← or_raise o node_not_found hostname
        expect_inside env_name n
        submit b c (codes "remove_host") (env_name ∷ hostname ∷ []) id
            (do remove_both b n; pure true)))

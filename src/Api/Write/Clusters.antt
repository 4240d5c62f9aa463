-- ===== src/Api/Write/Clusters.antt =====
-- librange/core/write_api.cpp: clusters below clusters, and the removal of clusters.
use rangexx.Base.{ℕ, Bool, true, not, Option, none, some, [], ◌∷◌, Str, codes}
use rangexx.Base.Results.{node_not_found, edge_not_found}
use rangexx.Node.Info.{NodeType, cluster}
use rangexx.Api.Names.{prefixed_node_name}
use rangexx.Api.Action.{Action, pure, ◌>>=◌, ◌>>◌, gets, raise_if, or_raise, scope}
use rangexx.Api.Backend.{primary, dependency, Backend}
use rangexx.Api.Requests.{Client}
use rangexx.Api.Write.Steps.{
  in_txn, find_node, expect, create_missing, add_dependency, linked, unlinked, remove_both, submit,
}

module _ {S V : Type 0} (b : Backend S V) (c : Client) where
  -- The type of a node, if there is one.
  unfoldable pub expect_if : Option V → NodeType → Str → Action S Unit
  unfolding expect
  expect_if none type name = pure tt
  expect_if (some n) type name = expect b primary n type name

  unfoldable pub add_cluster_to_cluster : Str → Str → Str → ℕ → Action S Bool
  unfolding submit expect expect_if create_missing add_dependency prefixed_node_name scope
  add_cluster_to_cluster env_name parent_cluster child_cluster id = in_txn b primary (
      in_txn b dependency (do
        p ← find_node b primary (prefixed_node_name env_name parent_cluster)
        parent ← or_raise p node_not_found (prefixed_node_name env_name parent_cluster)
        n ← find_node b primary (prefixed_node_name env_name child_cluster)
        expect b primary parent cluster parent_cluster
        expect_if n cluster child_cluster
        submit b c (codes "add_cluster_to_cluster") (env_name ∷ parent_cluster ∷ child_cluster ∷ [])
            id
            (do
              m ← create_missing b primary (prefixed_node_name env_name child_cluster) cluster n
              linked b parent m
              add_dependency b (prefixed_node_name env_name child_cluster) cluster
              pure true)))

  unfoldable pub remove_cluster_from_cluster : Str → Str → Str → ℕ → Action S Bool
  unfolding submit expect prefixed_node_name scope
  remove_cluster_from_cluster env_name parent_cluster child_cluster id = in_txn b primary (do
    p ← find_node b primary (prefixed_node_name env_name parent_cluster)
    o ← find_node b primary (prefixed_node_name env_name child_cluster)
    parent ← or_raise p node_not_found (prefixed_node_name env_name parent_cluster)
    n ← or_raise o node_not_found (prefixed_node_name env_name child_cluster)
    expect b primary parent cluster parent_cluster
    expect b primary n cluster child_cluster
    submit b c (codes "remove_cluster_from_cluster")
        (env_name ∷ parent_cluster ∷ child_cluster ∷ []) id
        (do
          gone ← unlinked b parent n
          name ← gets (λ s. (b.graph primary s).node.name n)
          raise_if (not gone) edge_not_found name
          pure true))

  unfoldable pub remove_cluster : Str → Str → ℕ → Action S Bool
  unfolding submit expect remove_both prefixed_node_name scope
  remove_cluster env_name cluster_name id = in_txn b primary (
      in_txn b dependency (do
        o ← find_node b primary (prefixed_node_name env_name cluster_name)
        n ← or_raise o node_not_found (prefixed_node_name env_name cluster_name)
        expect b primary n cluster cluster_name
        submit b c (codes "remove_cluster") (env_name ∷ cluster_name ∷ []) id
            (do remove_both b n; pure true)))

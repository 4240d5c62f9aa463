-- ===== src/Api/Write/Envs.antt =====
-- librange/core/write_api.cpp: environments, and clusters directly below them.
use rangexx.Base.{ℕ, Bool, true, not, Option, none, some, [], ◌∷◌, Str, codes}
use rangexx.Base.Results.{
  node_not_found, invalid_environment, incorrect_node_type, node_exists, edge_not_found,
}
use rangexx.Node.Info.{environment, cluster, type_eq}
use rangexx.Graph.Interface.{node_type_names}
use rangexx.Api.Names.{prefixed_node_name}
use rangexx.Api.Action.{Action, pure, ◌>>=◌, ◌>>◌, gets, raise_if, or_raise, scope}
use rangexx.Api.Backend.{Which, primary, dependency, Backend}
use rangexx.Api.Requests.{Client}
use rangexx.Api.Write.Steps.{
  type_message, in_txn, find_node, type_of, expect, create_typed, create_missing, add_dependency,
  linked, unlinked, removed, submit,
}

module _ {S V : Type 0} (b : Backend S V) (c : Client) where
  unfoldable pub create_env : Str → ℕ → Action S Bool
  unfolding submit create_typed scope
  create_env env_name id = submit b c (codes "create_env") (env_name ∷ []) id (do
    in_txn b primary (create_typed b primary env_name environment)
    in_txn b dependency (create_typed b dependency env_name environment)
    pure true)

  -- The body of the loop in `remove_env`.
  unfoldable pub remove_env_from : Which → Str → Action S (Option V)
  unfolding expect
  remove_env_from w env_name = do
    o ← find_node b w env_name
    n ← or_raise o node_not_found env_name
    expect b w n environment env_name
    removed b w n

  unfoldable pub remove_env : Str → ℕ → Action S Bool
  unfolding submit remove_env_from scope
  remove_env env_name id = submit b c (codes "remove_env") (env_name ∷ []) id (do
    in_txn b primary (remove_env_from primary env_name)
    in_txn b dependency (remove_env_from dependency env_name)
    pure true)

  -- The message names the type of the environment where it means that of the cluster.
  unfoldable pub expect_cluster : V → Str → Option V → Action S Unit
  unfolding type_eq type_message node_type_names
  expect_cluster env cluster_name none = pure tt
  expect_cluster env cluster_name (some n) = do
    found ← type_of b primary n
    named ← type_of b primary env
    raise_if (not (type_eq found cluster)) incorrect_node_type
        (type_message cluster_name named (node_type_names cluster))

  unfoldable pub add_cluster_to_env : Str → Str → ℕ → Action S Bool
  unfolding submit expect expect_cluster create_missing add_dependency prefixed_node_name scope
  add_cluster_to_env env_name cluster_name id = in_txn b primary (
      in_txn b dependency (do
        e ← find_node b primary env_name
        env ← or_raise e invalid_environment env_name
        n ← find_node b primary (prefixed_node_name env_name cluster_name)
        expect b primary env environment env_name
        expect_cluster env cluster_name n
        submit b c (codes "add_cluster_to_env") (env_name ∷ cluster_name ∷ []) id (do
          m ← create_missing b primary (prefixed_node_name env_name cluster_name) cluster n
          added ← linked b env m
          raise_if (not added) node_exists cluster_name
          add_dependency b (prefixed_node_name env_name cluster_name) cluster
          pure true)))

  unfoldable pub remove_cluster_from_env : Str → Str → ℕ → Action S Bool
  unfolding submit expect prefixed_node_name scope
  remove_cluster_from_env env_name cluster_name id = in_txn b primary (do
    e ← find_node b primary env_name
    o ← find_node b primary (prefixed_node_name env_name cluster_name)
    env ← or_raise e invalid_environment env_name
    n ← or_raise o node_not_found (prefixed_node_name env_name cluster_name)
    expect b primary env environment env_name
    expect b primary n cluster cluster_name
    submit b c (codes "remove_cluster_from_env") (env_name ∷ cluster_name ∷ []) id (do
      gone ← unlinked b env n
      name ← gets (λ s. (b.graph primary s).node.name n)
      raise_if (not gone) edge_not_found name
      pure true))

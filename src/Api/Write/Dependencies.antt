-- ===== src/Api/Write/Dependencies.antt =====
-- librange/core/write_api.cpp: dependencies between nodes.
use rangexx.Base.{ℕ, Bool, true, not, ◌||◌, [], ◌∷◌, ◌++◌, Str, codes}
use rangexx.Base.Results.{node_not_found, edge_not_found, node_exists, incorrect_node_type}
use rangexx.Node.Info.{environment, unknown, type_eq}
use rangexx.Graph.Interface.{node_type_names}
use rangexx.Api.Names.{prefixed_node_name}
use rangexx.Api.Action.{Action, pure, ◌>>=◌, ◌>>◌, raise_if, or_raise, scope}
use rangexx.Api.Backend.{dependency, Backend}
use rangexx.Api.Requests.{Client}
use rangexx.Api.Write.Steps.{in_txn, find_node, type_of, linked, unlinked, submit}

module _ {S V : Type 0} (b : Backend S V) (c : Client) where
  -- The message for a missing dependency has the wrong names.
  unfoldable pub add_node_ext_dependency : Str → Str → Str → Str → ℕ → Action S Bool
  unfolding submit prefixed_node_name type_eq node_type_names scope
  add_node_ext_dependency env_name node_name dependency_env dependency_name id =
      in_txn b dependency (do
        o ← find_node b dependency (prefixed_node_name env_name node_name)
        e ← find_node b dependency (prefixed_node_name dependency_env dependency_name)
        n ← or_raise o node_not_found (prefixed_node_name env_name node_name)
        d ← or_raise e node_not_found (prefixed_node_name env_name dependency_env)
        found ← type_of b dependency n
        raise_if (type_eq found environment || type_eq found unknown) incorrect_node_type (
            node_name
            ++ (codes " has type "
                ++ (node_type_names found ++ codes ", but should not be ENVIRONMENT or UNKNOWN")))
        submit b c (codes "add_node_ext_dependency")
            (env_name ∷ node_name ∷ dependency_env ∷ dependency_name ∷ []) id
            (do
              added ← linked b n d
              raise_if (not added) node_exists (codes "dependency already exists")
              pure true))

  unfoldable pub add_node_env_dependency : Str → Str → Str → ℕ → Action S Bool
  unfolding add_node_ext_dependency
  add_node_env_dependency env_name node_name dependency_name id =
      add_node_ext_dependency env_name node_name env_name dependency_name id

  unfoldable pub remove_node_ext_dependency : Str → Str → Str → Str → ℕ → Action S Bool
  unfolding submit prefixed_node_name scope
  remove_node_ext_dependency env_name node_name dependency_env dependency_name id =
      in_txn b dependency (do
        o ← find_node b dependency (prefixed_node_name env_name node_name)
        e ← find_node b dependency (prefixed_node_name dependency_env dependency_name)
        n ← or_raise o node_not_found (prefixed_node_name env_name node_name)
        d ← or_raise e node_not_found (prefixed_node_name env_name dependency_env)
        submit b c (codes "remove_node_ext_dependency")
            (env_name ∷ node_name ∷ dependency_env ∷ dependency_name ∷ []) id
            (do
              gone ← unlinked b n d
              raise_if (not gone) edge_not_found dependency_name
              pure true))

  unfoldable pub remove_node_env_dependency : Str → Str → Str → ℕ → Action S Bool
  unfolding remove_node_ext_dependency
  remove_node_env_dependency env_name node_name dependency_name id =
      remove_node_ext_dependency env_name node_name env_name dependency_name id

-- ===== src/Api/Write/Keys.antt =====
-- librange/core/write_api.cpp: keys of nodes and their values.
use rangexx.Base.{
  ℕ, Bool, true, not, Option, none, some, List, [], ◌∷◌, ◌++◌, Str, codes, str_eq, elem, length,
  if◌then◌else◌, ◌==◌,
}
use rangexx.Base.Results.{ok, node_not_found, edge_not_found, node_exists, create_node}
use rangexx.Node.Tags.{find}
use rangexx.Api.Names.{hash}
use rangexx.Api.Lookup.{get_node}
use rangexx.Api.Action.{Action, pure, ◌>>=◌, ◌>>◌, gets, lift, raise_if, or_raise, scope}
use rangexx.Api.Backend.{primary, Backend}
use rangexx.Api.Requests.{Client}
use rangexx.Api.Write.Steps.{in_txn, submit}

abbrev pub values_at : Option (List Str) → List Str
values_at none = []
values_at (some values) = values

-- The values that are not removed.
unfoldable pub new_values : Str → List Str → List Str
unfolding str_eq
new_values value [] = []
new_values value (v ∷ values) =
    let rest = new_values value values in if str_eq v value then rest else v ∷ rest

module _ {S V : Type 0} (b : Backend S V) (c : Client) where
  -- The node of this name in the environment, or the exception.
  unfoldable pub find_in : Str → Str → Action S V
  unfolding get_node
  find_in env_name node_name s =
      (do
        o ← lift (get_node (b.graph primary s) env_name node_name)
        or_raise o node_not_found (env_name ++ hash ∷ node_name))
        s

  abbrev pub values_of : Str → V → Action S (List Str)
  values_of key n = gets (λ s. values_at (find key ((b.graph primary s).node.tags n)))

  abbrev pub tagged : Str → List Str → V → Action S Bool
  tagged key values n s = let (r, (n', s')) = b.update_tag key values n s in (ok r, s')

  abbrev pub untagged : Str → V → Action S Bool
  untagged key n s = let (r, (n', s')) = b.delete_tag key n s in (ok r, s')

  unfoldable pub add_node_key_value : Str → Str → Str → Str → ℕ → Action S Bool
  unfolding submit find_in find elem scope
  add_node_key_value env_name node_name key value id = in_txn b primary (do
    n ← find_in env_name node_name
    values ← values_of key n
    raise_if (elem value values) node_exists
        (codes "value " ++ (value ++ (codes " already exists for key " ++ key)))
    submit b c (codes "add_node_key_value") (env_name ∷ node_name ∷ key ∷ value ∷ []) id
        (tagged key (values ++ value ∷ []) n))

  unfoldable pub remove_node_key_value : Str → Str → Str → Str → ℕ → Action S Bool
  unfolding submit find_in find new_values scope
  remove_node_key_value env_name node_name key value id = in_txn b primary (do
    n ← find_in env_name node_name
    values ← values_of key n
    raise_if (length (new_values value values) == length values) node_not_found
        (codes "nothing to remove")
    submit b c (codes "remove_node_key_value") (env_name ∷ node_name ∷ key ∷ value ∷ []) id (do
      changed ← tagged key (new_values value values) n
      raise_if (not changed) create_node (codes "Unable to update tag")
      pure true))

  unfoldable pub remove_key_from_node : Str → Str → Str → ℕ → Action S Bool
  unfolding submit find_in scope
  remove_key_from_node env_name node_name key id = in_txn b primary (do
    n ← find_in env_name node_name
    submit b c (codes "remove_key_from_node") (env_name ∷ node_name ∷ key ∷ []) id
        (do gone ← untagged key n; raise_if (not gone) edge_not_found key; pure true))

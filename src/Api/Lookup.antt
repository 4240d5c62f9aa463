-- ===== src/Api/Lookup.antt =====
-- librange/core/read_api.cpp: what is read of a single node, and the nodes of a type.
use rangexx.Base.{
  map, Bool, true, false, not, ◌&&◌, ◌||◌, Option, none, some, List, [], ◌∷◌, ◌++◌, Str, codes,
  str_eq, if◌then◌else◌,
}
use rangexx.Base.Results.{
  Result, ok, throw, ◌>>=◌, node_not_found, incorrect_node_type, key_not_found,
}
use rangexx.Node.Info.{NodeType, environment, cluster, host, string, unknown, type_eq}
use rangexx.Node.Tags.{TagTable, find}
use rangexx.Graph.Interface.{NodeIface, GraphInterface, node_type_names}
use rangexx.Api.Names.{has_size, unprefix_node_name, prefixed_node_name}

-- The node, if there is one with a type that passes the test; else what is thrown.
unfoldable pub of_type :
    {V : Type 0} → (NodeType → Bool) → NodeIface V → Str → Option V → Result (Option V)
of_type test node name none = throw node_not_found name
of_type test node name (some n) =
    if test (node.type n) then ok (some n) else throw node_not_found name

-- The last lookup of `get_node`, by the bare name.
unfoldable pub bare_node : {V : Type 0} → NodeIface V → Str → Option V → Result (Option V)
unfolding node_type_names type_eq
bare_node node name none = ok none
bare_node node name (some n) =
    if type_eq (node.type n) host
    then ok (some n)
    else throw node_not_found (name ++ codes ":" ++ node_type_names (node.type n))

abbrev pub or_else : {V : Type 0} → Option V → Result (Option V) → Result (Option V)
or_else none r = r
or_else (some n) r = ok (some n)

module _ {V : Type 0} (g : GraphInterface V) where
  unfoldable pub get_node : Str → Str → Result (Option V)
  unfolding of_type bare_node prefixed_node_name type_eq str_eq
  get_node env_name node_name =
      let name = prefixed_node_name env_name node_name in
      let is_env = λ (t : NodeType). type_eq t environment in
      let is_leaf = λ (t : NodeType). type_eq t string || type_eq t host in
      if not (has_size node_name) && not (has_size env_name)
      then ok none
      else if not (has_size node_name)
      then of_type is_env g.node name (g.get_node env_name)
      else if not (has_size env_name)
      then of_type is_leaf g.node name (g.get_node node_name)
      else if str_eq env_name node_name
      then of_type is_env g.node name (g.get_node env_name)
      else or_else (g.get_node name) (bare_node g.node name (g.get_node node_name))

-- What is thrown for a node that is not there.
abbrev pub required : {V : Type 0} → Str → Option V → Result V
required name none = throw node_not_found name
required name (some n) = ok n

abbrev pub throw_if : Bool → Result Unit → Result Unit
throw_if true r = r
throw_if false r = ok tt

-- The check of the type in `simple_expand`; `unknown` asks for none.
unfoldable pub check_type : NodeType → NodeType → Result Unit
unfolding type_eq node_type_names
check_type found type =
    throw_if (not (type_eq type unknown) && not (type_eq found type))
      (throw incorrect_node_type (node_type_names found ++ codes " != " ++ node_type_names type))

module _ {V : Type 0} (g : GraphInterface V) where
  abbrev pub lookup : Str → Str → Result V
  lookup env_name node_name =
      get_node g env_name node_name >>= required (prefixed_node_name env_name node_name)

  abbrev pub names_under : Str → List V → List Str
  names_under env_name = map (λ (v : V). unprefix_node_name env_name (g.node.name v))

  unfoldable pub simple_expand : Str → Str → NodeType → Result (List Str)
  unfolding get_node check_type unprefix_node_name prefixed_node_name type_eq
  simple_expand env_name node_name type = lookup env_name node_name >>= λ n.
      check_type (g.node.type n) type >>= λ _. ok (
        if not (type_eq (g.node.type n) host)
        then names_under env_name (g.node.forward_edges n)
        else [])

  unfoldable pub simple_expand_cluster : Str → Str → Result (List Str)
  unfolding simple_expand
  simple_expand_cluster env_name cluster_name = simple_expand env_name cluster_name cluster

  unfoldable pub simple_expand_env : Str → Result (List Str)
  unfolding simple_expand
  simple_expand_env env_name = simple_expand env_name [] environment

  unfoldable pub get_keys : Str → Str → Result (List Str)
  unfolding get_node prefixed_node_name
  get_keys env_name node_name =
      lookup env_name node_name >>= λ n. ok (map (λ (e : Str × List Str). e.0) (g.node.tags n))

  abbrev value_of : Str → Option (List Str) → Result (List Str)
  value_of key none = throw key_not_found key
  value_of key (some values) = ok values

  unfoldable pub fetch_key : Str → Str → Str → Result (List Str)
  unfolding get_node prefixed_node_name find
  fetch_key env_name node_name key =
      lookup env_name node_name >>= λ n. value_of key (find key (g.node.tags n))

  unfoldable pub fetch_all_keys : Str → Str → Result TagTable
  unfolding get_node prefixed_node_name
  fetch_all_keys env_name node_name = lookup env_name node_name >>= λ n. ok (g.node.tags n)

  unfoldable pub get_clusters : Str → Str → Result (List Str)
  unfolding prefixed_node_name unprefix_node_name of_type type_eq
  get_clusters env_name node_name =
      let name = prefixed_node_name env_name node_name in
      let is_owner = λ (t : NodeType). type_eq t environment || type_eq t host in
      or_else (g.get_node name) (of_type is_owner g.node name (g.get_node node_name))
      >>= required name
      >>= λ n. ok (names_under env_name (g.node.reverse_edges n))

  unfoldable pub names_of_type : NodeType → List V → List Str
  unfolding type_eq
  names_of_type type [] = []
  names_of_type type (v ∷ vs) =
      let rest = names_of_type type vs in
      if type_eq (g.node.type v) type then g.node.name v ∷ rest else rest

  unfoldable pub all_environments : List Str
  unfolding names_of_type
  all_environments = names_of_type environment g.nodes

  unfoldable pub all_hosts : List Str
  unfolding names_of_type
  all_hosts = names_of_type host g.nodes

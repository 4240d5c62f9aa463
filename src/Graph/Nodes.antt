-- ===== src/Graph/Nodes.antt =====
-- librange/graph/graphdb.cpp: `get_node` and `create`.
use rangexx.Base.{
  ℕ, Bool, true, false, Option, none, some, List, [], ◌∷◌, Str, str_eq, if◌then◌else◌, ltb, ◌==◌,
}
use rangexx.Node.Versions.{has_version}
use rangexx.Node.Storage.{RecordType, Wire, Storage}
use rangexx.Node.Object.{
  Node, newest, make_node, init_info, commit, add_graph_version, set_wanted_version,
}

-- The versions are newest first, as the source goes through them.
unfoldable pub has_version_or_higher : ℕ → List ℕ → Bool
has_version_or_higher wanted [] = false
has_version_or_higher wanted (v ∷ vs) =
    let rest = has_version_or_higher wanted vs in
    if ltb wanted v
    then true
    else if v == wanted
    then true
    else if ltb v wanted
    then false
    else rest

abbrev pub is_empty : Str → Bool
is_empty [] = true
is_empty (b ∷ text) = false

-- `node_version_map`: the versions of nodes at the wanted version of the graph.
unfoldable pub node_version : Str → List (Str × ℕ) → Option ℕ
node_version name [] = none
node_version name ((m, v) ∷ t) =
    let rest = node_version name t in if str_eq name m then some v else rest

abbrev pub wanting : Option ℕ → Node → Node
wanting none n = n
wanting (some v) n = set_wanted_version v n

-- `version` is that of the instance, which depends on what is pending.
module _ (w : Wire) (s : Storage) (version : s.State → ℕ) where
  -- A node with a record, if the wanted version of the graph has it.
  unfoldable pub get_node : ℕ → List (Str × ℕ) → Str → s.State → Option Node
  unfolding node_version
  get_node wanted_version node_version_map name st =
      let n = init_info w s st (make_node name newest) in
      let cmp = if wanted_version == newest then version st else wanted_version in
      if is_empty (s.get_record RecordType.node name st)
      then none
      else if has_version cmp n.info.graph_versions
      then some (if cmp == version st then n else wanting (node_version name node_version_map) n)
      else none

  unfoldable pub create : Str → s.State → Option Node × s.State
  unfolding has_version_or_higher
  create name st =
      let n = init_info w s st (make_node name newest) in
      if has_version_or_higher (version st) n.info.graph_versions
      then (none, st)
      else (let (_, (m, st')) =
            if n.info.list_version == 0 then commit w s n st else (true, (n, st)) in
          let (k, st'') = add_graph_version w s (version st') m st' in (some k, st''))

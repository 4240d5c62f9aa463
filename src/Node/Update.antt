-- ===== src/Node/Update.antt =====
-- librange/db/pbuff_node.cpp: the helpers that carry all edges and tags of a node over from the
-- current version of the record to the next one.
use rangexx.Base.{ℕ, Bool, true, false, List, [], ◌∷◌, if◌then◌else◌, ◌==◌}
use rangexx.Node.Versions.{update_unique_new_version}
use rangexx.Node.Info.{Adjacency, VersionMap, KeyValue, NodeInfo}

-- `update_unique_new_version(edge, …)`
unfoldable pub update_edge : ℕ → ℕ → Adjacency → Adjacency
update_edge cmp new e = record e { versions = (update_unique_new_version e.versions cmp new).1 }

unfoldable pub update_edges : ℕ → ℕ → List Adjacency → List Adjacency
update_edges cmp new [] = []
update_edges cmp new (e ∷ es) = update_edge cmp new e ∷ update_edges cmp new es

unfoldable pub update_all_edge_versions : NodeInfo → ℕ → ℕ → NodeInfo
update_all_edge_versions i cmp new = record i {
  forward = update_edges cmp new i.forward;
  reverse = update_edges cmp new i.reverse;
}

-- Does the map have an entry for this version of the record?
unfoldable pub maps_version : ℕ → List VersionMap → Bool
maps_version new [] = false
maps_version new (m ∷ ms) =
    let rest = maps_version new ms in if m.list_version == new then true else rest

-- The loop of `update_tag_versions`: a key whose map has the new version ends the whole loop.
unfoldable pub update_keys : ℕ → ℕ → List KeyValue → List KeyValue
unfolding maps_version
update_keys cmp new [] = []
update_keys cmp new (k ∷ ks) =
    let rest = update_keys cmp new ks in
    let (found, vs) = update_unique_new_version k.versions cmp new in
    let k' = record k { versions = vs } in
    let m : VersionMap = record { list_version = new; key_version = k.key_version } in
    if found
    then (if maps_version new k.versionmap
        then k' ∷ ks
        else record k' { versionmap = m ∷ k.versionmap } ∷ rest)
    else k' ∷ rest

unfoldable pub update_tag_versions : NodeInfo → ℕ → ℕ → NodeInfo
update_tag_versions i cmp new = record i { tags = update_keys cmp new i.tags }

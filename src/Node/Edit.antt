-- ===== src/Node/Edit.antt =====
-- librange/db/pbuff_node.cpp: what `add_edge`, `remove_edge`, `update_tag`, `delete_tag`, `set_type`
-- and `add_graph_version` do to the record of a node in memory, up to the call of `write_record`.
-- `none` is an early `return false`: nothing has been changed.
use rangexx.Base.{
  ℕ, Bool, true, false, Option, none, some, List, [], ◌∷◌, ◌++◌, Str, str_eq, if◌then◌else◌, ltb,
  ◌==◌,
}
use rangexx.Node.Versions.{next_version, has_version, current, older, absent, scan_edge}
use rangexx.Node.Info.{NodeType, Adjacency, NodeInfo, Direction, edges_of, set_edges}
use rangexx.Node.Update.{update_all_edge_versions, update_tag_versions}

-- What the first loop of `add_edge` finds: the edge is there already; an edge with that name has
-- older versions only, given with the other edges in order; or there is none.
pub data Found : Type 0 where
  already : Found
  prior : List Adjacency → Adjacency → Found
  missing : Found

abbrev pub keep : Adjacency → Found → Found
keep e already = already
keep e (prior others f) = prior (e ∷ others) f
keep e missing = missing

unfoldable pub find_edge : Str → ℕ → List Adjacency → Found
find_edge other cmp [] = missing
find_edge other cmp (e ∷ es) =
    let rest = keep e (find_edge other cmp es) in
    if str_eq other e.id
    then elim (scan_edge cmp e.versions) [ current ↦ already | older ↦ prior es e | absent ↦ rest ]
    else rest

-- The edges with this one at the end, at its new version.
unfoldable pub place_edge : Str → ℕ → ℕ → List Adjacency → Option (List Adjacency)
unfolding find_edge
place_edge other cmp new es = elim (find_edge other cmp es) [
  | already ↦ none
  | prior others e ↦ some (others ++ record e { versions = new ∷ e.versions } ∷ [])
  | missing ↦ some (es ++ record { id = other; versions = new ∷ [] } ∷ [])
]

-- Everything in the record moves on to the new version.
unfoldable pub carry : NodeInfo → ℕ → ℕ → NodeInfo
carry i cmp new = record (update_tag_versions (update_all_edge_versions i cmp new) cmp new) {
  list_version = new;
}

unfoldable pub add_edge_info : Direction → Str → NodeInfo → Option NodeInfo
unfolding place_edge carry
add_edge_info d other i =
    let cmp = i.list_version in
    let new = next_version cmp in
    elim (place_edge other cmp new (edges_of d i)) [
      | none ↦ none
      | some es ↦ some (carry (set_edges d es i) cmp new)
    ]

-- The first two loops of `remove_edge`: the first edge with that name has the current version.
unfoldable pub can_remove : Str → ℕ → List Adjacency → Bool
can_remove other cmp [] = false
can_remove other cmp (e ∷ es) =
    let rest = can_remove other cmp es in
    if str_eq other e.id then has_version cmp e.versions else rest

abbrev pub remove_last : List ℕ → List ℕ
remove_last [] = []
remove_last (v ∷ vs) = vs

-- `RemoveLast` on the versions of the first edge with that name
unfoldable pub drop_version : Str → List Adjacency → List Adjacency
drop_version other [] = []
drop_version other (e ∷ es) =
    let rest = drop_version other es in
    if str_eq other e.id then record e { versions = remove_last e.versions } ∷ es else e ∷ rest

unfoldable pub remove_edge_info : Direction → Str → NodeInfo → Option NodeInfo
unfolding can_remove drop_version carry
remove_edge_info d other i =
    let cmp = i.list_version in
    let new = next_version cmp in
    let j = carry i cmp new in
    if can_remove other cmp (edges_of d i)
    then some (set_edges d (drop_version other (edges_of d j)) j)
    else none

unfoldable pub set_type_info : NodeType → NodeInfo → NodeInfo
unfolding carry
set_type_info t i =
    let cmp = i.list_version in carry (record i { node_type = t }) cmp (next_version cmp)

-- The loop of `add_graph_version`: does it return early?
unfoldable pub has_version_from : ℕ → List ℕ → Bool
has_version_from v [] = false
has_version_from v (g ∷ gs) =
    let rest = has_version_from v gs in if v == g then true else if ltb v g then true else rest

unfoldable pub add_graph_version_info : ℕ → NodeInfo → Option NodeInfo
unfolding has_version_from
add_graph_version_info v i =
    if has_version_from v i.graph_versions
    then none
    else some (record i { graph_versions = v ∷ i.graph_versions })

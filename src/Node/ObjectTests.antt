-- ===== src/Node/ObjectTests.antt =====
-- Runs of node objects on a storage in memory, and the theorems on them there.
use rangexx.Base.{
  ℕ, suc, ◌<◌, ◌≡◌, ◌≢◌, refl, ap, true, false, List, [], ◌∷◌, Str, codes, str_eq, elem, arith,
  Bool-apart,
}
use rangexx.Node.Versions.{has_version}
use rangexx.Node.EdgeList.{GoodEdges}
use rangexx.Node.Info.{
  NodeType, NodeInfo, Direction, forwards, backwards, opposite, edges_of, get_edges,
}
use rangexx.Node.Invariant.{GoodInfo}
use rangexx.Node.Object.{Node, newest, make_node, init_info, read_info, link, unlink, modify}
use rangexx.Node.Codec.{Memory, sample_wire, memory, store}
use rangexx.Node.Stored.{current, Accepts, ModifySpec, modify_lem}
use rangexx.Node.Pairs.{Paired, JoinSpec, link_lem, unlink_lem}
use rangexx.Node.History.{Edit, add, remove, retag, untag, retype, edit_info}

abbrev left_name : Str
left_name = codes "left"

abbrev right_name : Str
right_name = codes "right"

abbrev left : Node
left = make_node left_name newest

abbrev right : Node
right = make_node right_name newest

-- A record with one version that an edge has, at a version of its own.
abbrev with_edge : ℕ → Direction → Str → ℕ → NodeInfo
with_edge v forwards other had = record {
  list_version = v;
  crc32 = 0;
  node_type = NodeType.cluster;
  forward = record { id = other; versions = had ∷ [] } ∷ [];
  reverse = [];
  tags = [];
  graph_versions = [];
}
with_edge v backwards other had = record {
  list_version = v;
  crc32 = 0;
  node_type = NodeType.cluster;
  forward = [];
  reverse = record { id = other; versions = had ∷ [] } ∷ [];
  tags = [];
  graph_versions = [];
}

with_edge-GoodInfo :
    (v : ℕ) (d : Direction) (other : Str) (had : ℕ)
    → had < suc v
    → GoodInfo (with_edge v d other had)
with_edge-GoodInfo v forwards other had h = record {
  edges = good;
  keys = record { good = tt; distinct = tt };
}
  where
    good : (d : Direction) → GoodEdges (suc v) (edges_of d (with_edge v forwards other had))
    good forwards =
        unfold edges_of in
        record { good = (record { falls = (h, tt); held = omega arith }, tt); distinct = (tt, tt) }
    good backwards = unfold edges_of in record { good = tt; distinct = tt }
with_edge-GoodInfo v backwards other had h = record {
  edges = good;
  keys = record { good = tt; distinct = tt };
}
  where
    good : (d : Direction) → GoodEdges (suc v) (edges_of d (with_edge v backwards other had))
    good forwards = unfold edges_of in record { good = tt; distinct = tt }
    good backwards =
        unfold edges_of in
        record { good = (record { falls = (h, tt); held = omega arith }, tt); distinct = (tt, tt) }

-- The left node has version 2, the right one version 5; the edge between them is in these versions.
abbrev two_nodes : ℕ → ℕ → Memory
two_nodes l r =
    store 0 left_name (sample_wire.serialize (with_edge 2 forwards right_name l)) (
      store 0 right_name (sample_wire.serialize (with_edge 5 backwards left_name r)) (λ t name. []))

memory-Accepts : Accepts sample_wire memory
memory-Accepts t name v text st = refl

left_current :
    (l r : ℕ)
    → current sample_wire memory (two_nodes l r) left_name ≡ with_edge 2 forwards right_name l
unfolding init_info read_info str_eq
left_current l r = refl

right_current :
    (l r : ℕ)
    → current sample_wire memory (two_nodes l r) right_name ≡ with_edge 5 backwards left_name r
unfolding init_info read_info str_eq
right_current l r = refl

apart : left_name ≢ right_name
unfolding str_eq
apart e = Bool-apart (ap (str_eq left_name) e)

missing-Paired : Paired sample_wire memory forwards left right (two_nodes 1 1)
unfolding init_info read_info str_eq has_version get_edges edges_of opposite elem
missing-Paired = record {
  apart = apart;
  synced = (refl, refl);
  good = (
    with_edge-GoodInfo 2 forwards right_name 1 (omega arith),
    with_edge-GoodInfo 5 backwards left_name 1 (omega arith),
  );
  mirrored = refl;
}

there-Paired : Paired sample_wire memory forwards left right (two_nodes 2 5)
unfolding init_info read_info str_eq has_version get_edges edges_of opposite elem
there-Paired = record {
  apart = apart;
  synced = (refl, refl);
  good = (
    with_edge-GoodInfo 2 forwards right_name 2 (omega arith),
    with_edge-GoodInfo 5 backwards left_name 5 (omega arith),
  );
  mirrored = refl;
}

link_lem_example :
    JoinSpec sample_wire memory true forwards left right
      (two_nodes 1 1)
      (link sample_wire memory forwards true left right (two_nodes 1 1))
link_lem_example =
    link_lem sample_wire memory memory-Accepts forwards left right (two_nodes 1 1) missing-Paired
      (rw (left_current 1 1) (omega arith)) (rw (right_current 1 1) (omega arith))

unlink_lem_example :
    JoinSpec sample_wire memory false forwards left right
      (two_nodes 2 5)
      (unlink sample_wire memory forwards true left right (two_nodes 2 5))
unlink_lem_example =
    unlink_lem sample_wire memory memory-Accepts forwards left right (two_nodes 2 5) there-Paired
      (rw (left_current 2 5) (omega arith)) (rw (right_current 2 5) (omega arith))

abbrev edits : List Edit
edits =
    retag (codes "k") (codes "x" ∷ [])
    ∷ remove forwards right_name
    ∷ untag (codes "k")
    ∷ add forwards right_name
    ∷ retype NodeType.host
    ∷ []

modify_lem_example :
    ModifySpec sample_wire memory
      (edit_info
        (remove forwards right_name)
        (current sample_wire memory (two_nodes 2 5) left_name))
      left_name
      (two_nodes 2 5)
      (modify sample_wire memory (edit_info (remove forwards right_name)) left (two_nodes 2 5))
modify_lem_example =
    modify_lem sample_wire memory memory-Accepts (edit_info (remove forwards right_name)) left
      (two_nodes 2 5) there-Paired.synced.0

-- ===== src/Node/Object.antt =====
-- librange/db/pbuff_node.cpp: a `ProtobufNode` with its instance, and the operations on it. An object
-- without an instance, for which `init_info` throws, is left out.
use rangexx.Base.{
  ℕ, ◌-◌, ◌^◌, Bool, true, false, Option, none, some, List, [], ◌∷◌, ◌&&◌, Str, if◌then◌else◌, ◌==◌,
}
use mathlib.Core.List.{reverse}
use rangexx.Crc.{crc32}
use rangexx.Node.Info.{
  NodeType, NodeInfo, empty_info, init_default_nodeinfo, Direction, opposite, edges_of, get_edges,
}
use rangexx.Node.Edit.{add_edge_info, remove_edge_info, set_type_info, add_graph_version_info}
use rangexx.Node.Tags.{TagTable, tags_at, update_tag_info, delete_tag_info}
use rangexx.Node.Storage.{RecordType, Wire, Storage}

pub record Node : Type 0 where
  pub name : Str
  pub wanted_version : ℕ
  pub type_ : NodeType
  pub info_initialized : Bool
  pub info : NodeInfo

-- `static_cast<uint64_t>(-1)`, which stands for the newest version
abbrev pub newest : ℕ
newest = 2 ^ 64 - 1

-- `ProtobufNode(name, instance, version)`
abbrev pub make_node : Str → ℕ → Node
make_node name version = record {
  name = name;
  wanted_version = version;
  type_ = NodeType.unknown;
  info_initialized = false;
  info = empty_info;
}

-- The version that a reader is shown.
unfoldable pub cmp_version : Node → ℕ
cmp_version n = if n.wanted_version == newest then n.info.list_version else n.wanted_version

-- The nodes at the ends of edges have the wanted version of the node.
abbrev pub nodes_of : Node → List Str → List Node
nodes_of n [] = []
nodes_of n (name ∷ names) = make_node name n.wanted_version ∷ nodes_of n names

module _ (w : Wire) (s : Storage) where
  -- The message `tmp` of `init_info`, if it is initialised.
  unfoldable pub read_info : Str → Option NodeInfo
  read_info [] = none
  read_info (b ∷ buffer) = w.parse (b ∷ buffer)

  unfoldable pub init_info : s.State → Node → Node
  unfolding read_info init_default_nodeinfo
  init_info st n =
      if n.info_initialized then n else elim (read_info (s.get_record RecordType.node n.name st)) [
        | none ↦ record n { info = init_default_nodeinfo n.info; info_initialized = true }
        | some i ↦ record n { info = i; type_ = i.node_type; info_initialized = true }
      ]

  -- The checksum of a record: that of the same record with 0 in its place.
  unfoldable pub checksum : NodeInfo → ℕ
  unfolding crc32
  checksum i = crc32 (w.serialize (record i { crc32 = 0 }))

  unfoldable pub stamp : NodeInfo → NodeInfo
  unfolding checksum
  stamp i = record i { crc32 = checksum i }

  unfoldable pub write_record : RecordType → Node → s.State → Bool × (Node × s.State)
  unfolding stamp
  write_record t n st =
      let i = stamp n.info in
      let (written, after) = s.write_record t n.name i.list_version (w.serialize i) st in
      (written, (record n { info = i }, after))

  -- What the operations have in common: load the record, change it or return early, write it.
  unfoldable pub modify : (NodeInfo → Option NodeInfo) → Node → s.State → Bool × (Node × s.State)
  unfolding init_info write_record
  modify change n st =
      let loaded = init_info st n in
      elim (change loaded.info) [
        | none ↦ (false, (loaded, st))
        | some i ↦ write_record RecordType.node (record loaded { info = i }) st
      ]

  unfoldable pub add_edge : Direction → Str → Node → s.State → Bool × (Node × s.State)
  unfolding modify
  add_edge d other n st = modify (add_edge_info d other) n st

  unfoldable pub remove_edge : Direction → Str → Node → s.State → Bool × (Node × s.State)
  unfolding modify
  remove_edge d other n st = modify (remove_edge_info d other) n st

  -- `add_forward_edge` and `add_reverse_edge`; what the call on the other node returns is ignored.
  unfoldable pub link : Direction → Bool → Node → Node → s.State → Bool × (Node × (Node × s.State))
  unfolding add_edge
  link d update_other n other st =
      let (added, (n', st')) = add_edge d other.name n st in
      if added && update_other
      then (let (_, (other', st'')) = add_edge (opposite d) n.name other st' in
          (true, (n', (other', st''))))
      else (added, (n', (other, st')))

  -- `remove_forward_edge` and `remove_reverse_edge`
  unfoldable pub unlink :
      Direction → Bool → Node → Node → s.State → Bool × (Node × (Node × s.State))
  unfolding remove_edge
  unlink d update_other n other st =
      let (removed, (n', st')) = remove_edge d other.name n st in
      if removed && update_other
      then (let (_, (other', st'')) = remove_edge (opposite d) n.name other st' in
          (true, (n', (other', st''))))
      else (removed, (n', (other, st')))

  unfoldable pub update_tag : Str → List Str → Node → s.State → Bool × (Node × s.State)
  unfolding modify
  update_tag key values n st = modify (λ i. some (update_tag_info key values i)) n st

  unfoldable pub delete_tag : Str → Node → s.State → Bool × (Node × s.State)
  unfolding modify
  delete_tag key n st = modify (delete_tag_info key) n st

  -- It returns the type that the node had, whether the record was written or not.
  unfoldable pub set_type : NodeType → Node → s.State → NodeType × (Node × s.State)
  unfolding modify
  set_type t n st =
      ((init_info st n).info.node_type, (modify (λ i. some (set_type_info t i)) n st).1)

  -- Without `init_info`: the record that the object has.
  unfoldable pub commit : Node → s.State → Bool × (Node × s.State)
  unfolding write_record
  commit n st = write_record RecordType.node n st

  unfoldable pub add_graph_version : ℕ → Node → s.State → Node × s.State
  unfolding init_info write_record
  add_graph_version v n st =
      let loaded = init_info st n in
      elim (add_graph_version_info v loaded.info) [
        | none ↦ (loaded, st)
        | some i ↦
            let (_, (n', st')) =
              write_record RecordType.node_meta (record loaded { info = i }) st in
            (n', s.flush st')
      ]

  -- It looks at the record that the object has, without `init_info`.
  unfoldable pub is_valid : Node → Bool
  unfolding checksum
  is_valid n = n.info.crc32 == checksum n.info

  -- `forward_edges` and `reverse_edges`: new objects, with the same instance and wanted version.
  unfoldable pub edges : Direction → Node → s.State → Node × List Node
  unfolding init_info cmp_version
  edges d n st =
      let loaded = init_info st n in
      (loaded, nodes_of loaded (get_edges (cmp_version loaded) (edges_of d loaded.info)))

  -- `type`, `version`, `crc32` and `graph_versions`; the last gives the oldest version first.
  unfoldable pub get_type : Node → s.State → Node × NodeType
  unfolding init_info
  get_type n st = let loaded = init_info st n in (loaded, loaded.info.node_type)

  unfoldable pub get_version : Node → s.State → Node × ℕ
  unfolding init_info
  get_version n st = let loaded = init_info st n in (loaded, loaded.info.list_version)

  unfoldable pub get_crc32 : Node → s.State → Node × ℕ
  unfolding init_info
  get_crc32 n st = let loaded = init_info st n in (loaded, loaded.info.crc32)

  unfoldable pub get_graph_versions : Node → s.State → Node × List ℕ
  unfolding init_info
  get_graph_versions n st =
      let loaded = init_info st n in (loaded, reverse loaded.info.graph_versions)

  unfoldable pub tags : Node → s.State → Node × TagTable
  unfolding init_info cmp_version
  tags n st = let loaded = init_info st n in (loaded, tags_at (cmp_version loaded) loaded.info)

-- `set_instance`: the record is loaded again, into the message that there is.
unfoldable pub set_instance : Node → Node
set_instance n = record n { info_initialized = false }

unfoldable pub set_wanted_version : ℕ → Node → Node
set_wanted_version version n = record n { wanted_version = version }

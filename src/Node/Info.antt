-- ===== src/Node/Info.antt =====
-- librange/db/nodeinfo.proto and librange/graph/node_interface.h: the record of a node. The
-- `required` fields of the messages are always set here: `init_info` never leaves them out.
-- Lists of versions, and the `versionmap` of a key, have the newest entry first.
use rangexx.Base.{ℕ, Bool, true, false, List, [], ◌∷◌, Str, if◌then◌else◌}
use rangexx.Node.Versions.{has_version}

pub data NodeType : Type 0 where
  environment cluster host string reserved unknown : NodeType

unfoldable pub type_eq : NodeType → NodeType → Bool
type_eq environment environment = true
type_eq cluster cluster = true
type_eq host host = true
type_eq string string = true
type_eq reserved reserved = true
type_eq unknown unknown = true
type_eq _ _ = false

-- `NodeInfo::Adjacency`
pub record Adjacency : Type 0 where
  pub id : Str
  pub versions : List ℕ

-- `NodeInfo::Tags::KeyValue::Values`; `content` is its field `data`.
pub record TagValue : Type 0 where
  pub content : Str
  pub versions : List ℕ

-- `NodeInfo::Tags::KeyValue::ListToVersionMap`
pub record VersionMap : Type 0 where
  pub list_version : ℕ
  pub key_version : ℕ

-- `NodeInfo::Tags::KeyValue`
pub record KeyValue : Type 0 where
  pub key : Str
  pub key_version : ℕ
  pub values : List TagValue
  pub versions : List ℕ
  pub versionmap : List VersionMap

pub record NodeInfo : Type 0 where
  pub list_version : ℕ
  pub crc32 : ℕ
  pub node_type : NodeType
  pub forward : List Adjacency
  pub reverse : List Adjacency
  pub tags : List KeyValue
  pub graph_versions : List ℕ

-- A message that holds nothing yet.
abbrev pub empty_info : NodeInfo
empty_info = record {
  list_version = 0;
  crc32 = 0;
  node_type = environment;
  forward = [];
  reverse = [];
  tags = [];
  graph_versions = [];
}

-- It clears no list.
unfoldable pub init_default_nodeinfo : NodeInfo → NodeInfo
init_default_nodeinfo i = record i { node_type = unknown; list_version = 0; crc32 = 0 }

-- Which of the two lists of edges an operation works on.
pub data Direction : Type 0 where
  forwards backwards : Direction

unfoldable pub opposite : Direction → Direction
opposite forwards = backwards
opposite backwards = forwards

unfoldable pub edges_of : Direction → NodeInfo → List Adjacency
edges_of forwards i = i.forward
edges_of backwards i = i.reverse

unfoldable pub set_edges : Direction → List Adjacency → NodeInfo → NodeInfo
set_edges forwards es i = record i { forward = es }
set_edges backwards es i = record i { reverse = es }

-- `get_edges`: the names of the edges that the wanted version has.
unfoldable pub get_edges : ℕ → List Adjacency → List Str
get_edges cmp [] = []
get_edges cmp (e ∷ es) =
    let rest = get_edges cmp es in if has_version cmp e.versions then e.id ∷ rest else rest

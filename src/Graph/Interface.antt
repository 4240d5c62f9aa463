-- ===== src/Graph/Interface.antt =====
-- librange/graph/node_interface.h and graph_interface.h: what the API reads of nodes and graphs, at one
-- version. `V` stands for the objects that `node_t` points to.
use rangexx.Base.{Option, List, Str, codes}
use rangexx.Node.Info.{NodeType, environment, cluster, host, string, reserved, unknown}
use rangexx.Node.Tags.{TagTable}

pub record NodeIface (V : Type 0) : Type 0 where
  pub name : V → Str
  pub type : V → NodeType
  pub forward_edges : V → List V
  pub reverse_edges : V → List V
  pub tags : V → TagTable

-- `nodes` is what an iteration gives, with the filter for the version.
pub record GraphInterface (V : Type 0) : Type 0 where
  pub node : NodeIface V
  pub get_node : Str → Option V
  pub nodes : List V

unfoldable pub node_type_names : NodeType → Str
node_type_names environment = codes "ENVIRONMENT"
node_type_names cluster = codes "CLUSTER"
node_type_names host = codes "HOST"
node_type_names string = codes "STRING"
node_type_names reserved = codes "RESERVED"
node_type_names unknown = codes "UNKNOWN"

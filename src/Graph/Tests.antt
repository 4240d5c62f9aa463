-- ===== src/Graph/Tests.antt =====
-- Runs on a graph in memory, and the theorems there.
use rangexx.Base.{ℕ, ◌≡◌, refl, true, false, not, ◌&&◌, [], ◌∷◌, Str, codes, str_eq, arith}
use rangexx.Node.Versions.{contains, has_version}
use rangexx.Node.Info.{NodeInfo, NodeType}
use rangexx.Node.Storage.{RecordType}
use rangexx.Node.Object.{newest, init_info, read_info}
use rangexx.Node.Codec.{Memory, sample_wire, memory, store}
use rangexx.Node.Stored.{current, Accepts}
use rangexx.Graph.Nodes.{get_node, create, is_empty, node_version}
use rangexx.Graph.Create.{Created, create_lem}
use rangexx.Graph.Visible.{is_some, reaches, visible_lem}

abbrev prod : Str
prod = codes "prod"

abbrev empty_memory : Memory
empty_memory t name = []

abbrev shown : NodeInfo
shown = record {
  list_version = 2;
  crc32 = 0;
  node_type = NodeType.environment;
  forward = [];
  reverse = [];
  tags = [];
  graph_versions = 3 ∷ 1 ∷ [];
}

abbrev one_node : Memory
one_node = store 0 prod (sample_wire.serialize shown) empty_memory

abbrev at_four : Memory → ℕ
at_four st = 4

memory-Accepts : Accepts sample_wire memory
memory-Accepts t name v text st = refl

create_lem_example :
    Created sample_wire memory at_four memory-Accepts prod empty_memory refl
      (create sample_wire memory at_four prod empty_memory).0
      (create sample_wire memory at_four prod empty_memory).1
create_lem_example = create_lem sample_wire memory at_four memory-Accepts prod empty_memory refl

-- Version 3 has the node, version 2 and the newest version, 4, do not.
get_node_run :
    (is_some (get_node sample_wire memory at_four 3 [] prod one_node) ≡ true)
    × (is_some (get_node sample_wire memory at_four 2 [] prod one_node) ≡ false)
    × (is_some (get_node sample_wire memory at_four newest [] prod one_node) ≡ false)
unfolding get_node init_info read_info has_version node_version str_eq
get_node_run = (refl, refl, refl)

visible_lem_example :
    (is_some (get_node sample_wire memory at_four 3 [] prod one_node) ≡ (
      not (is_empty (memory.get_record RecordType.node prod one_node))
      && contains 3 (current sample_wire memory one_node prod).graph_versions))
    × (is_some (create sample_wire memory at_four prod one_node).0
        ≡ not (reaches 4 (current sample_wire memory one_node prod).graph_versions))
visible_lem_example =
    visible_lem sample_wire memory at_four 4 prod one_node
      (unfold init_info read_info str_eq in (omega arith, (omega arith, tt))) 3 []

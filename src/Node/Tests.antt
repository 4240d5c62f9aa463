-- ===== src/Node/Tests.antt =====
-- Runs of the node operations on a small record, and the theorems at such records.
use rangexx.Base.{◌≡◌, refl, none, some, [], ◌∷◌, codes, Str, str_eq, arith}
use mathlib.Core.Option
use rangexx.Node.Versions.{next_version, has_version, update_unique_new_version, scan_edge}
use rangexx.Node.EdgeList.{GoodEdges}
use rangexx.Node.Info.{
  NodeInfo, NodeType, host, Direction, forwards, backwards, edges_of, set_edges, get_edges,
}
use rangexx.Node.Update.{
  update_edges, update_edge, update_keys, update_all_edge_versions, update_tag_versions,
}
use rangexx.Node.Edit.{add_edge_info, remove_edge_info, set_type_info}
use rangexx.Node.Edit.{add_graph_version_info}
use rangexx.Node.GraphVersions.{GraphSpec, add_graph_version_info_lem}
use rangexx.Node.Tags.{find, tags_at, get_map_value, update_tag_info, delete_tag_info}
use rangexx.Node.Invariant.{GoodInfo, edges_at, tag_at}
use rangexx.Node.RemoveEdge.{RemoveSpec, remove_edge_info_lem}
use rangexx.Node.ChangeTag.{TagSet, update_tag_info_lem}
use rangexx.Node.DeleteTag.{DeleteSpec, TypeSet, delete_tag_info_lem, set_type_info_lem}

abbrev host_a : Str
host_a = codes "a"

abbrev host_b : Str
host_b = codes "b"

abbrev colour : Str
colour = codes "k"

abbrev red : Str
red = codes "x"

-- A record at version 3: an edge to `host_a` since version 1, one to `host_b` in version 1 alone, and the tag
-- `colour` with the value `red` since version 2.
abbrev sample : NodeInfo
sample = record {
  list_version = 3;
  crc32 = 0;
  node_type = host;
  forward =
      record { id = host_a; versions = 3 ∷ 2 ∷ 1 ∷ [] }
      ∷ record { id = host_b; versions = 1 ∷ [] }
      ∷ [];
  reverse = [];
  tags =
      record {
        key = colour;
        key_version = 1;
        values = record { content = red; versions = 1 ∷ [] } ∷ [];
        versions = 3 ∷ 2 ∷ [];
        versionmap =
            record { list_version = 3; key_version = 1 }
            ∷ record { list_version = 2; key_version = 1 }
            ∷ [];
      }
      ∷ [];
  graph_versions = [];
}

sample_edges : (d : Direction) → GoodEdges 4 (edges_of d sample)
unfolding edges_of str_eq
sample_edges forwards = record {
  good = (
    record { falls = omega arith; held = omega arith },
    (record { falls = omega arith; held = omega arith }, tt),
  );
  distinct = ((refl, tt), (tt, tt));
}
sample_edges backwards = record { good = tt; distinct = tt }

sample-GoodInfo : GoodInfo sample
sample-GoodInfo = record {
  edges = sample_edges;
  keys = record {
    good = (
      record {
        falls = omega arith;
        map_falls = omega arith;
        key_below = omega arith;
        values_fall = omega arith;
        is_current = λ h. (refl, refl);
      },
      tt,
    );
    distinct = (tt, tt);
  };
}

-- The edge to `host_b` comes back, after the one to `host_a`; the one to `host_a` is there already.
add_edge_run :
    (Option.map (edges_at 4 forwards) (add_edge_info forwards host_b sample)
      ≡ some (host_a ∷ host_b ∷ []))
    × (add_edge_info forwards host_a sample ≡ none)
unfolding edges_of get_edges add_edge_info set_edges update_tag_versions update_all_edge_versions
    update_edges update_edge update_keys update_unique_new_version next_version has_version
    scan_edge str_eq
add_edge_run = (refl, refl)

-- A tag that was deleted can be set again, to the value that it had.
readd_run :
    Option.map
      (λ j. tag_at 5 colour (update_tag_info colour (red ∷ []) j))
      (delete_tag_info colour sample)
    ≡ some (some (red ∷ []))
unfolding delete_tag_info update_tag_info tags_at get_map_value find update_tag_versions
    update_all_edge_versions update_edges update_edge update_keys update_unique_new_version
    next_version has_version str_eq
readd_run = refl

remove_edge_info_lem_example :
    RemoveSpec forwards host_a sample (remove_edge_info forwards host_a sample)
remove_edge_info_lem_example =
    remove_edge_info_lem forwards host_a sample sample-GoodInfo (omega arith)

update_tag_info_lem_example :
    TagSet colour
      (host_b ∷ host_a ∷ [])
      sample
      (update_tag_info colour (host_b ∷ host_a ∷ []) sample)
update_tag_info_lem_example =
    update_tag_info_lem colour (host_b ∷ host_a ∷ []) sample sample-GoodInfo (omega arith)

delete_tag_info_lem_example : DeleteSpec colour sample (delete_tag_info colour sample)
delete_tag_info_lem_example = delete_tag_info_lem colour sample sample-GoodInfo (omega arith)

set_type_info_lem_example : TypeSet NodeType.cluster sample (set_type_info NodeType.cluster sample)
set_type_info_lem_example = set_type_info_lem NodeType.cluster sample sample-GoodInfo (omega arith)

add_graph_version_info_lem_example :
    GraphSpec 9
      (record sample { graph_versions = 7 ∷ 4 ∷ [] })
      (add_graph_version_info 9 (record sample { graph_versions = 7 ∷ 4 ∷ [] }))
add_graph_version_info_lem_example =
    add_graph_version_info_lem 8 9 (record sample { graph_versions = 7 ∷ 4 ∷ [] }) (omega arith)

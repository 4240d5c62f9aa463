-- ===== src/Node/History.antt =====
-- A sequence of operations on one object, and what readers of older versions see after it.
use rangexx.Base.{ℕ, ◌+◌, ◌≤◌, ◌≡◌, Option, none, some, List, [], ◌∷◌, Str, elem}
use rangexx.Node.Info.{NodeType, NodeInfo, Direction}
use rangexx.Node.Edit.{add_edge_info, remove_edge_info, set_type_info}
use rangexx.Node.Tags.{update_tag_info, delete_tag_info}
use rangexx.Node.Storage.{Wire, Storage}
use rangexx.Node.Object.{Node, modify}
use rangexx.Node.Stored.{current, Synced}
use rangexx.Node.Invariant.{GoodInfo, edges_at, tag_at, Follows}

-- The operations that make a new version of a record.
pub data Edit : Type 0 where
  add remove : Direction → Str → Edit
  retag : Str → List Str → Edit
  untag : Str → Edit
  retype : NodeType → Edit

abbrev pub edit_info : Edit → NodeInfo → Option NodeInfo
edit_info (add d other) i = add_edge_info d other i
edit_info (remove d other) i = remove_edge_info d other i
edit_info (retag key values) i = some (update_tag_info key values i)
edit_info (untag key) i = delete_tag_info key i
edit_info (retype t) i = some (set_type_info t i)

abbrev pub FollowSpec : NodeInfo → Option NodeInfo → Type 0
FollowSpec i none = Unit
FollowSpec i (some j) = Follows i j

-- What a reader of the version `v` of a record sees is the same in both records.
pub record SameView (v : ℕ) (i j : NodeInfo) : Type 0 where
  pub same_edges : (d : Direction) (t : Str) → elem t (edges_at v d j) ≡ elem t (edges_at v d i)
  pub same_tags : (t : Str) → tag_at v t j ≡ tag_at v t i

module _ (w : Wire) (s : Storage) where
  abbrev pub run : List Edit → Node → s.State → Node × s.State
  run [] n st = (n, st)
  run (e ∷ es) n st = let (_, (n', st')) = modify w s (edit_info e) n st in run es n' st'

  -- After at most `k` changes the object and the record are in order, and the past is as it was.
  pub record Kept (k : ℕ) (name : Str) (st : s.State) (n' : Node) (st' : s.State) : Type 0 where
    pub same_name : n'.name ≡ name
    pub synced : Synced w s st' n'
    pub good : GoodInfo (current w s st' name)
    pub least : (current w s st name).list_version ≤ (current w s st' name).list_version
    pub most : (current w s st' name).list_version ≤ (current w s st name).list_version + k
    pub past :
        (v : ℕ)
        → v ≤ (current w s st name).list_version
        → SameView v (current w s st name) (current w s st' name)

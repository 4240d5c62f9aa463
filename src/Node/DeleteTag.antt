-- ===== src/Node/DeleteTag.antt =====
-- `delete_tag` and `set_type` on the record of a node.
use rangexx.Base.{
  suc, ◌+◌, ◌^◌, ◌<◌, ◌≡◌, ◌≢◌, refl, sym, ◌∙◌, ap, Bool, true, false, Option, none, some, List,
  Str, str_eq, if◌then◌else◌,
}
use mathlib.Core.Path.{subst}
use rangexx.Node.Versions.{next_version, next_version-eq}
use rangexx.Node.Info.{NodeType, NodeInfo, Direction, forwards, backwards, edges_of}
use rangexx.Node.Update.{update_edges, update_keys, update_all_edge_versions, update_tag_versions}
use rangexx.Node.KeyList.{GoodKeys, tag_of}
use rangexx.Node.Edit.{carry, set_type_info}
use rangexx.Node.Tags.{can_delete, drop_key_version, delete_tag_info}
use rangexx.Node.EdgeList.{GoodEdges}
use rangexx.Node.DropTag.{
  deleted, deleted_lem, can_delete_lem, deleted-now_self, deleted-now_other, deleted-past,
  deleted-GoodKeys,
}
use rangexx.Node.Invariant.{GoodInfo, tag_at, tag_at_lem, Follows, SameEdges, SameTags}
use rangexx.Node.Carry.{
  carried-GoodKeys, carried-SameTags, carried-past, carried-GoodEdges, carried-SameEdges,
  carried-past_edges,
}
use rangexx.Node.ChangeTag.{Retagged, retag}

-- The tag was there, and the next version lacks it; all else is as before.
pub record TagDeleted (key : Str) (i j : NodeInfo) : Type 0 where
  pub there : tag_at i.list_version key i ≢ none
  pub retagged : Retagged i j
  pub now : tag_at (suc i.list_version) key j ≡ none
  pub others :
      (s : Str) → str_eq s key ≡ false → tag_at (suc i.list_version) s j ≡ tag_at i.list_version s i

abbrev pub DeleteSpec : Str → NodeInfo → Option NodeInfo → Type 0
DeleteSpec key i none = tag_at i.list_version key i ≡ none
DeleteSpec key i (some j) = TagDeleted key i j

module _ (key : Str) (i : NodeInfo) (g : GoodInfo i) (h : i.list_version + 1 < 2 ^ 64) where
  abbrev moved : NodeInfo
  moved = carry i i.list_version (next_version i.list_version)

  abbrev after : NodeInfo
  after = record moved { tags = drop_key_version key moved.tags }

  tags_after : after.tags ≡ deleted i.list_version key i.tags
  unfolding carry update_tag_versions update_all_edge_versions
  tags_after =
      rw (next_version-eq i.list_version h) (deleted_lem i.list_version key i.tags g.keys.good)

  edges_after :
      (d : Direction)
      → edges_of d after ≡ update_edges i.list_version (suc i.list_version) (edges_of d i)
  unfolding edges_of carry update_tag_versions update_all_edge_versions
  edges_after forwards = rw (next_version-eq i.list_version h)
  edges_after backwards = rw (next_version-eq i.list_version h)

  module _ (c : can_delete key i.list_version i.tags ≡ true) where
    keys_after : GoodKeys (suc i.list_version) after.tags
    keys_after =
        subst (GoodKeys (suc i.list_version)) (sym tags_after)
          (deleted-GoodKeys i.list_version key i.tags g.keys c)

    after-Retagged : Retagged i after
    unfolding carry update_tag_versions update_all_edge_versions
    after-Retagged =
        retag i after g (next_version-eq i.list_version h) edges_after keys_after
          (λ w s lt.
            ap (tag_of w s) tags_after
            ∙ deleted-past i.list_version key w s i.tags g.keys.good c lt)
          refl refl

    after-TagDeleted : tag_of i.list_version key i.tags ≢ none → TagDeleted key i after
    after-TagDeleted there = record {
      there = λ e. there (sym (tag_at_lem i.list_version key i i.list_version g.keys) ∙ e);
      retagged = after-Retagged;
      now =
          tag_at_lem (suc i.list_version) key after (suc i.list_version) keys_after
          ∙ ap (tag_of (suc i.list_version) key) tags_after
          ∙ deleted-now_self i.list_version key i.tags g.keys c;
      others = λ s n.
          tag_at_lem (suc i.list_version) s after (suc i.list_version) keys_after
          ∙ ap (tag_of (suc i.list_version) s) tags_after
          ∙ deleted-now_other i.list_version key s i.tags g.keys.good n
          ∙ sym (tag_at_lem i.list_version s i i.list_version g.keys);
    }

  abbrev finish : Bool → Option NodeInfo
  finish c = if c then some after else none

  finished :
      (o : Option (List Str))
      → tag_of i.list_version key i.tags ≡ o
      → can_delete key i.list_version i.tags ≡ elim o [ none ↦ false | some vs ↦ true ]
      → DeleteSpec key i (delete_tag_info key i)
  unfolding delete_tag_info
  finished none e c = rw c (tag_at_lem i.list_version key i i.list_version g.keys ∙ e)
  finished (some vs) e c = rw c (after-TagDeleted c (λ n. cc (e, n)))

  -- On a well-formed record with a version left, `delete_tag` fails exactly if the current version
  -- lacks the tag. Else the next version lacks it, and has all other tags, the edges and the type
  -- unchanged; no older version sees a change, and the record is well formed at a version that is
  -- one higher.
  pub delete_tag_info_lem : DeleteSpec key i (delete_tag_info key i)
  delete_tag_info_lem =
      finished (tag_of i.list_version key i.tags) refl
        (can_delete_lem key i.list_version i.tags g.keys.good)

-- The next version has the type, and the edges and tags of the current one.
pub record TypeSet (t : NodeType) (i j : NodeInfo) : Type 0 where
  pub follows : Follows i j
  pub same_edges : (d : Direction) → SameEdges d i j
  pub same_tags : SameTags i j
  pub now : j.node_type ≡ t

module _ (t : NodeType) (i : NodeInfo) (g : GoodInfo i) (h : i.list_version + 1 < 2 ^ 64) where
  abbrev typed : NodeInfo
  typed = set_type_info t i

  edges_typed :
      (d : Direction)
      → edges_of d typed ≡ update_edges i.list_version (suc i.list_version) (edges_of d i)
  unfolding edges_of set_type_info update_tag_versions update_all_edge_versions
  edges_typed forwards = rw (next_version-eq i.list_version h)
  edges_typed backwards = rw (next_version-eq i.list_version h)

  tags_typed : typed.tags ≡ update_keys i.list_version (suc i.list_version) i.tags
  unfolding set_type_info update_tag_versions update_all_edge_versions
  tags_typed = rw (next_version-eq i.list_version h)

  version_typed : typed.list_version ≡ suc i.list_version
  unfolding set_type_info
  version_typed = next_version-eq i.list_version h

  -- `set_type` on a well-formed record with a version left changes the type alone, for all versions
  -- at once; the record is well formed at a version that is one higher, and no older version sees a
  -- change in its edges and tags.
  pub set_type_info_lem : TypeSet t i (set_type_info t i)
  unfolding set_type_info update_tag_versions update_all_edge_versions
  set_type_info_lem = record {
    follows = record {
      version = version_typed;
      good = record {
        edges = λ d.
            subst (λ v. GoodEdges (suc v) (edges_of d typed)) (sym version_typed)
              (carried-GoodEdges i typed d (g.edges d) (edges_typed d));
        keys =
            subst (λ v. GoodKeys v typed.tags) (sym version_typed)
              (carried-GoodKeys i typed g.keys tags_typed);
      };
      past_edges = λ w d s lt. carried-past_edges i typed d (g.edges d) (edges_typed d) w s lt;
      past_tags = carried-past i typed g.keys tags_typed;
      graph = refl;
    };
    same_edges = λ d. carried-SameEdges i typed d (g.edges d) (edges_typed d);
    same_tags = carried-SameTags i typed g.keys tags_typed;
    now = refl;
  }

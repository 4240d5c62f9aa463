-- ===== src/Node/ChangeTag.antt =====
-- `update_tag`, `delete_tag` and `set_type` on the record of a node.
use rangexx.Base.{
  ℕ, suc, ◌+◌, ◌^◌, ◌<◌, ◌≡◌, refl, sym, ◌∙◌, ap, false, some, List, Str, str_eq, elem,
}
use mathlib.Core.Path.{subst}
use rangexx.Node.Versions.{next_version-eq}
use rangexx.Node.Info.{NodeInfo, Direction, forwards, backwards, edges_of}
use rangexx.Node.Update.{update_edges, update_all_edge_versions, update_tag_versions}
use rangexx.Node.KeyList.{GoodKeys, tag_of}
use rangexx.Node.Tags.{update_tag_info}
use rangexx.Node.EdgeList.{GoodEdges}
use rangexx.Node.SetTag.{
  renewed, renewed_lem, renewed-now_self, renewed-now_other, renewed-past, renewed-GoodKeys,
}
use rangexx.Node.Invariant.{GoodInfo, tag_at, tag_at_lem, Follows, SameEdges}
use rangexx.Node.Carry.{carried-GoodEdges, carried-SameEdges, carried-past_edges}

-- Only tags may differ between the current version of `i` and the next version, in `j`.
pub record Retagged (i j : NodeInfo) : Type 0 where
  pub follows : Follows i j
  pub same_edges : (d : Direction) → SameEdges d i j
  pub same_type : j.node_type ≡ i.node_type

-- The next version has exactly these values for the tag, and all other tags as before.
pub record TagSet (key : Str) (ss : List Str) (i j : NodeInfo) : Type 0 where
  pub retagged : Retagged i j
  pub values : List Str
  pub now : tag_at (suc i.list_version) key j ≡ some values
  pub exact : (s : Str) → elem s values ≡ elem s ss
  pub others :
      (s : Str) → str_eq s key ≡ false → tag_at (suc i.list_version) s j ≡ tag_at i.list_version s i

module _ (i j : NodeInfo) (g : GoodInfo i) (version : j.list_version ≡ suc i.list_version)
    (e : (d : Direction)
      → edges_of d j ≡ update_edges i.list_version (suc i.list_version) (edges_of d i)) where
  edges-GoodEdges : (d : Direction) → GoodEdges (suc j.list_version) (edges_of d j)
  edges-GoodEdges d =
      subst (λ v. GoodEdges (suc v) (edges_of d j)) (sym version)
        (carried-GoodEdges i j d (g.edges d) (e d))

  -- Edges carried over, and keys that are well formed and have their past.
  pub retag :
      GoodKeys (suc i.list_version) j.tags
      → ((w : ℕ) (s : Str) → w < suc i.list_version → tag_of w s j.tags ≡ tag_of w s i.tags)
      → j.node_type ≡ i.node_type
      → j.graph_versions ≡ i.graph_versions
      → Retagged i j
  retag keys past t v = record {
    follows = record {
      version = version;
      good = record {
        edges = edges-GoodEdges;
        keys = subst (λ v. GoodKeys v j.tags) (sym version) keys;
      };
      past_edges = λ w d s h. carried-past_edges i j d (g.edges d) (e d) w s h;
      past_tags = λ w s h.
          tag_at_lem w s j (suc i.list_version) keys
          ∙ past w s h
          ∙ sym (tag_at_lem w s i i.list_version g.keys);
      graph = v;
    };
    same_edges = λ d. carried-SameEdges i j d (g.edges d) (e d);
    same_type = t;
  }

module _ (key : Str) (ss : List Str) (i : NodeInfo) (g : GoodInfo i)
    (h : i.list_version + 1 < 2 ^ 64) where
  abbrev after : NodeInfo
  after = update_tag_info key ss i

  tags_after : after.tags ≡ renewed i.list_version key ss i.tags
  unfolding update_tag_info update_tag_versions update_all_edge_versions
  tags_after =
      rw (next_version-eq i.list_version h) (renewed_lem i.list_version key ss i.tags g.keys.good h)

  keys_after : GoodKeys (suc i.list_version) after.tags
  keys_after =
      subst (GoodKeys (suc i.list_version)) (sym tags_after)
        (renewed-GoodKeys i.list_version key ss i.tags g.keys)

  edges_after :
      (d : Direction)
      → edges_of d after ≡ update_edges i.list_version (suc i.list_version) (edges_of d i)
  unfolding edges_of update_tag_info update_tag_versions update_all_edge_versions
  edges_after forwards = rw (next_version-eq i.list_version h)
  edges_after backwards = rw (next_version-eq i.list_version h)

  after-Retagged : Retagged i after
  unfolding update_tag_info update_tag_versions update_all_edge_versions
  after-Retagged =
      retag i after g (next_version-eq i.list_version h) edges_after keys_after
        (λ w s lt.
          ap (tag_of w s) tags_after ∙ renewed-past i.list_version key ss w s i.tags g.keys.good lt)
        refl refl

  -- After `update_tag` on a well-formed record with a version left, the next version has exactly the
  -- given values under the key, in some order; all other tags, the edges and the type are unchanged,
  -- no older version sees a change, and the record is well formed at a version that is one higher.
  pub update_tag_info_lem : TagSet key ss i (update_tag_info key ss i)
  update_tag_info_lem =
      let (values, now, exact) = renewed-now_self i.list_version key ss i.tags g.keys.good in
      record {
        retagged = after-Retagged;
        values = values;
        now =
            tag_at_lem (suc i.list_version) key after (suc i.list_version) keys_after
            ∙ ap (tag_of (suc i.list_version) key) tags_after
            ∙ now;
        exact = exact;
        others = λ s n.
            tag_at_lem (suc i.list_version) s after (suc i.list_version) keys_after
            ∙ ap (tag_of (suc i.list_version) s) tags_after
            ∙ renewed-now_other i.list_version key ss s i.tags g.keys.good n
            ∙ sym (tag_at_lem i.list_version s i i.list_version g.keys);
      }

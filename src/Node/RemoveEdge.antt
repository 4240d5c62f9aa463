-- ===== src/Node/RemoveEdge.antt =====
-- `remove_edge` on the record of a node.
use rangexx.Base.{
  ℕ, suc, ◌+◌, ◌^◌, ◌<◌, ◌≡◌, refl, sym, ◌∙◌, ap, Bool, true, false, Option, none, some, List, Str,
  elem, if◌then◌else◌,
}
use mathlib.Core.Path.{subst}
use rangexx.Node.Versions.{next_version, next_version-eq}
use rangexx.Node.Info.{
  Adjacency, NodeInfo, Direction, forwards, backwards, opposite, edges_of, set_edges, get_edges,
}
use rangexx.Node.Update.{update_edges, update_keys, update_all_edge_versions, update_tag_versions}
use rangexx.Node.KeyList.{GoodKeys}
use rangexx.Node.Edit.{carry, can_remove, drop_version, remove_edge_info}
use rangexx.Node.EdgeList.{GoodEdges}
use rangexx.Node.DropEdge.{
  without, can_remove_lem, dropped, dropped-now, dropped-past, dropped-GoodEdges,
}
use rangexx.Node.Invariant.{
  GoodInfo, edges_at, Follows, SameEdges, SameTags, edges_of-set, edges_of-set_opposite,
  edges_of-carry, tags-carry, Direction-cases,
}
use rangexx.Node.Carry.{
  carried-GoodKeys, carried-SameTags, carried-past, carried-GoodEdges, carried-SameEdges,
  carried-past_edges,
}

-- The edge was there, and the next version lacks it; all else is as before.
pub record Removed (d : Direction) (other : Str) (i j : NodeInfo) : Type 0 where
  pub there : elem other (edges_at i.list_version d i) ≡ true
  pub follows : Follows i j
  pub now : edges_at (suc i.list_version) d j ≡ without other (edges_at i.list_version d i)
  pub opposite_edges : SameEdges (opposite d) i j
  pub same_tags : SameTags i j
  pub same_type : j.node_type ≡ i.node_type

abbrev pub RemoveSpec : Direction → Str → NodeInfo → Option NodeInfo → Type 0
RemoveSpec d other i none = elem other (edges_at i.list_version d i) ≡ false
RemoveSpec d other i (some j) = Removed d other i j

-- What `set_edges` leaves alone.
pub kept-set_edges :
    (d : Direction) (es : List Adjacency) (i : NodeInfo)
    → ((set_edges d es i).list_version ≡ i.list_version)
      × ((set_edges d es i).node_type ≡ i.node_type)
      × ((set_edges d es i).graph_versions ≡ i.graph_versions)
      × ((set_edges d es i).tags ≡ i.tags)
unfolding set_edges
kept-set_edges forwards es i = (refl, refl, refl, refl)
kept-set_edges backwards es i = (refl, refl, refl, refl)

module _ (d : Direction) (other : Str) (i : NodeInfo) (g : GoodInfo i)
    (there : elem other (edges_at i.list_version d i) ≡ true) where
  abbrev moved : NodeInfo
  moved = carry i i.list_version (suc i.list_version)

  abbrev rest : List Adjacency
  rest = drop_version other (edges_of d moved)

  abbrev after : NodeInfo
  after = set_edges d rest moved

  edges_after : edges_of d after ≡ dropped other i.list_version (edges_of d i)
  edges_after =
      edges_of-set d rest moved
      ∙ ap (drop_version other) (edges_of-carry d i i.list_version (suc i.list_version))

  opposite-after :
      edges_of (opposite d) after
      ≡ update_edges i.list_version (suc i.list_version) (edges_of (opposite d) i)
  opposite-after =
      edges_of-set_opposite d rest moved
      ∙ edges_of-carry (opposite d) i i.list_version (suc i.list_version)

  tags_after : after.tags ≡ update_keys i.list_version (suc i.list_version) i.tags
  tags_after = (kept-set_edges d rest moved).3 ∙ tags-carry i i.list_version (suc i.list_version)

  version_after : after.list_version ≡ suc i.list_version
  version_after = (kept-set_edges d rest moved).0 ∙ (unfold carry in refl)

  after-GoodInfo : GoodInfo after
  after-GoodInfo = record {
    edges =
        Direction-cases (λ e. GoodEdges (suc after.list_version) (edges_of e after)) d
          (subst (λ v. GoodEdges (suc v) (edges_of d after)) (sym version_after)
            (subst (GoodEdges (suc (suc i.list_version))) (sym edges_after)
              (dropped-GoodEdges other i.list_version (edges_of d i) (g.edges d) there)))
          (subst (λ v. GoodEdges (suc v) (edges_of (opposite d) after)) (sym version_after)
            (carried-GoodEdges i after (opposite d) (g.edges (opposite d)) opposite-after));
    keys =
        subst (λ v. GoodKeys v after.tags) (sym version_after)
          (carried-GoodKeys i after g.keys tags_after);
  }

  after-Removed : Removed d other i after
  unfolding carry update_tag_versions update_all_edge_versions
  after-Removed = record {
    there = there;
    follows = record {
      version = version_after;
      good = after-GoodInfo;
      past_edges = λ w e s h.
          Direction-cases (λ x. elem s (edges_at w x after) ≡ elem s (edges_at w x i)) d
            (ap (λ (l : List Adjacency). elem s (get_edges w l)) edges_after
              ∙ ap (elem s)
                  (dropped-past other i.list_version w (edges_of d i) (g.edges d) there h))
            (carried-past_edges i after (opposite d) (g.edges (opposite d)) opposite-after w s h) e;
      past_tags = carried-past i after g.keys tags_after;
      graph = (kept-set_edges d rest moved).2;
    };
    now =
        ap (get_edges (suc i.list_version)) edges_after
        ∙ dropped-now other i.list_version (edges_of d i) (g.edges d) there;
    opposite_edges = carried-SameEdges i after (opposite d) (g.edges (opposite d)) opposite-after;
    same_tags = carried-SameTags i after g.keys tags_after;
    same_type = (kept-set_edges d rest moved).1;
  }

module _ (d : Direction) (other : Str) (i : NodeInfo) where
  abbrev finish : ℕ → Bool → Option NodeInfo
  finish new c =
      let j = carry i i.list_version new in
      if c then some (set_edges d (drop_version other (edges_of d j)) j) else none

  remove_edge_info-finish :
      remove_edge_info d other i
      ≡ finish (next_version i.list_version) (can_remove other i.list_version (edges_of d i))
  unfolding remove_edge_info
  remove_edge_info-finish = refl

  removed :
      (c : Bool)
      → elem other (edges_at i.list_version d i) ≡ c
      → GoodInfo i
      → RemoveSpec d other i (finish (suc i.list_version) c)
  removed true e g = after-Removed d other i g e
  removed false e g = e

  -- On a well-formed record with a version left, `remove_edge` fails exactly if the current version
  -- lacks the edge. Else the next version has all other edges in their order, and has the edges of
  -- the other direction, the tags and the type unchanged; no older version sees a change, and the
  -- record is well formed at a version that is one higher.
  pub remove_edge_info_lem :
      GoodInfo i → i.list_version + 1 < 2 ^ 64 → RemoveSpec d other i (remove_edge_info d other i)
  remove_edge_info_lem g h =
      rw
        (
          remove_edge_info-finish,
          next_version-eq i.list_version h,
          can_remove_lem other i.list_version (edges_of d i) (g.edges d).distinct,
        )
        (removed (elem other (edges_at i.list_version d i)) refl g)

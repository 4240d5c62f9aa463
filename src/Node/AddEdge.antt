-- ===== src/Node/AddEdge.antt =====
-- `add_edge` on the record of a node.
use rangexx.Base.{
  ℕ, suc, ◌+◌, ◌^◌, ◌<◌, ◌≡◌, refl, sym, ◌∙◌, ap, true, false, Option, none, some, List, [], ◌∷◌,
  ◌++◌, Str, elem, arith,
}
use mathlib.Core.Path.{subst}
use rangexx.Node.Versions.{next_version, next_version-eq}
use rangexx.Node.Info.{
  Adjacency, NodeInfo, Direction, forwards, backwards, opposite, edges_of, set_edges, get_edges,
}
use rangexx.Node.Update.{update_edges, update_keys, update_all_edge_versions, update_tag_versions}
use rangexx.Node.KeyList.{GoodKeys}
use rangexx.Node.Edit.{place_edge, carry, add_edge_info}
use rangexx.Node.EdgeList.{GoodEdges}
use rangexx.Node.PlaceEdge.{Placed, PlaceSpec, place_edge_lem}
use rangexx.Node.Invariant.{
  GoodInfo, edges_at, Follows, SameEdges, SameTags, edges_of-set, edges_of-set_opposite,
  edges_of-carry, tags-carry, Direction-cases,
}
use rangexx.Node.Carry.{
  carried-GoodKeys, carried-SameTags, carried-past, carried-GoodEdges, carried-SameEdges,
  carried-past_edges,
}

-- The edge was not there, and is the last one of the next version; all else is as before.
pub record Added (d : Direction) (other : Str) (i j : NodeInfo) : Type 0 where
  pub fresh : elem other (edges_at i.list_version d i) ≡ false
  pub follows : Follows i j
  pub now : edges_at (suc i.list_version) d j ≡ edges_at i.list_version d i ++ other ∷ []
  pub opposite_edges : SameEdges (opposite d) i j
  pub same_tags : SameTags i j
  pub same_type : j.node_type ≡ i.node_type

abbrev pub AddSpec : Direction → Str → NodeInfo → Option NodeInfo → Type 0
AddSpec d other i none = elem other (edges_at i.list_version d i) ≡ true
AddSpec d other i (some j) = Added d other i j

module _ (d : Direction) (other : Str) (i : NodeInfo) (g : GoodInfo i) where
  module _ (es : List Adjacency) (p : Placed other i.list_version (edges_of d i) es) where
    abbrev after : NodeInfo
    after = carry (set_edges d es i) i.list_version (suc i.list_version)

    edges_after : edges_of d after ≡ update_edges i.list_version (suc i.list_version) es
    edges_after =
        edges_of-carry d (set_edges d es i) i.list_version (suc i.list_version)
        ∙ ap (update_edges i.list_version (suc i.list_version)) (edges_of-set d es i)

    opposite-after :
        edges_of (opposite d) after
        ≡ update_edges i.list_version (suc i.list_version) (edges_of (opposite d) i)
    opposite-after =
        edges_of-carry (opposite d) (set_edges d es i) i.list_version (suc i.list_version)
        ∙ ap (update_edges i.list_version (suc i.list_version)) (edges_of-set_opposite d es i)

    tags_after : after.tags ≡ update_keys i.list_version (suc i.list_version) i.tags
    tags_after = tags-carry (set_edges d es i) i.list_version (suc i.list_version) ∙ tags_set d
      where
        tags_set :
            (e : Direction)
            → update_keys i.list_version (suc i.list_version) (set_edges e es i).tags
              ≡ update_keys i.list_version (suc i.list_version) i.tags
        tags_set forwards = unfold set_edges in refl
        tags_set backwards = unfold set_edges in refl

    kept_after :
        (after.list_version ≡ suc i.list_version)
        × (after.node_type ≡ i.node_type)
        × (after.graph_versions ≡ i.graph_versions)
    kept_after = kept d
      where
        kept :
            (e : Direction)
            → ((carry (set_edges e es i) i.list_version (suc i.list_version)).list_version
                ≡ suc i.list_version)
              × ((carry (set_edges e es i) i.list_version (suc i.list_version)).node_type
                  ≡ i.node_type)
              × ((carry (set_edges e es i) i.list_version (suc i.list_version)).graph_versions
                  ≡ i.graph_versions)
        kept forwards =
            unfold carry set_edges update_all_edge_versions update_tag_versions in
            (refl, refl, refl)
        kept backwards =
            unfold carry set_edges update_all_edge_versions update_tag_versions in
            (refl, refl, refl)

    after-GoodInfo : GoodInfo after
    after-GoodInfo = record {
      edges =
          Direction-cases (λ e. GoodEdges (suc after.list_version) (edges_of e after)) d
            (subst (λ v. GoodEdges (suc v) (edges_of d after)) (sym kept_after.0)
              (subst (GoodEdges (suc (suc i.list_version))) (sym edges_after) p.good))
            (subst (λ v. GoodEdges (suc v) (edges_of (opposite d) after)) (sym kept_after.0)
              (carried-GoodEdges i after (opposite d) (g.edges (opposite d)) opposite-after));
      keys =
          subst (λ v. GoodKeys v after.tags) (sym kept_after.0)
            (carried-GoodKeys i after g.keys tags_after);
    }

    after-Added : Added d other i after
    after-Added = record {
      fresh = p.fresh;
      follows = record {
        version = kept_after.0;
        good = after-GoodInfo;
        past_edges = λ w e s h.
            Direction-cases (λ x. elem s (edges_at w x after) ≡ elem s (edges_at w x i)) d
              (ap (λ (l : List Adjacency). elem s (get_edges w l)) edges_after ∙ p.past w s h)
              (carried-past_edges i after (opposite d) (g.edges (opposite d)) opposite-after w s h)
              e;
        past_tags = carried-past i after g.keys tags_after;
        graph = kept_after.2;
      };
      now = ap (get_edges (suc i.list_version)) edges_after ∙ p.now;
      opposite_edges = carried-SameEdges i after (opposite d) (g.edges (opposite d)) opposite-after;
      same_tags = carried-SameTags i after g.keys tags_after;
      same_type = kept_after.1;
    }

  abbrev finish : ℕ → Option (List Adjacency) → Option NodeInfo
  finish new none = none
  finish new (some es) = some (carry (set_edges d es i) i.list_version new)

  add_edge_info-finish :
      add_edge_info d other i
      ≡ finish
          (next_version i.list_version)
          (place_edge other i.list_version (next_version i.list_version) (edges_of d i))
  unfolding add_edge_info
  add_edge_info-finish = ground arith

  added :
      (r : Option (List Adjacency))
      → PlaceSpec other i.list_version (edges_of d i) r
      → place_edge other i.list_version (suc i.list_version) (edges_of d i) ≡ r
      → i.list_version + 1 < 2 ^ 64
      → AddSpec d other i (add_edge_info d other i)
  added none p e h = rw (add_edge_info-finish, next_version-eq i.list_version h, e) p
  added (some es) p e h =
      rw (add_edge_info-finish, next_version-eq i.list_version h, e) (after-Added es p)

  pub add_edge_info_lem : i.list_version + 1 < 2 ^ 64 → AddSpec d other i (add_edge_info d other i)
  add_edge_info_lem h =
      added (place_edge other i.list_version (suc i.list_version) (edges_of d i))
        (place_edge_lem other i.list_version (edges_of d i) (g.edges d)) refl h

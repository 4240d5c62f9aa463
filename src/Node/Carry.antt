-- ===== src/Node/Carry.antt =====
-- What `carry` moves on to the next version: the tags, and the edges of one direction.
use rangexx.Base.{ℕ, suc, ◌<◌, ◌≡◌, sym, ◌∙◌, ap, List, Str, elem}
use mathlib.Core.Path.{subst}
use rangexx.Node.Info.{Adjacency, NodeInfo, Direction, edges_of, get_edges}
use rangexx.Node.Update.{update_edges, update_keys}
use rangexx.Node.EdgeList.{GoodEdges}
use rangexx.Node.EdgeMoves.{update_edges-now, update_edges-past, update_edges-GoodEdges}
use rangexx.Node.KeyList.{
  GoodKeys, tag_of, carry_keys, update_keys_lem, tag_of-carry_now, tag_of-carry_past,
  carry_keys-GoodKeys,
}
use rangexx.Node.Invariant.{edges_at, tag_at, SameEdges, SameTags, tag_at_lem}

-- Tags that `carry` has moved on.
module _ (i j : NodeInfo) (g : GoodKeys i.list_version i.tags)
    (e : j.tags ≡ update_keys i.list_version (suc i.list_version) i.tags) where
  carried : j.tags ≡ carry_keys i.list_version i.tags
  carried = e ∙ update_keys_lem i.list_version i.tags g.good

  pub carried-GoodKeys : GoodKeys (suc i.list_version) j.tags
  carried-GoodKeys =
      subst (GoodKeys (suc i.list_version)) (sym carried)
        (carry_keys-GoodKeys i.list_version i.tags g)

  pub carried-SameTags : SameTags i j
  carried-SameTags s =
      tag_at_lem (suc i.list_version) s j (suc i.list_version) carried-GoodKeys
      ∙ ap (tag_of (suc i.list_version) s) carried
      ∙ tag_of-carry_now i.list_version s i.tags g.good
      ∙ sym (tag_at_lem i.list_version s i i.list_version g)

  pub carried-past : (w : ℕ) (s : Str) → w < suc i.list_version → tag_at w s j ≡ tag_at w s i
  carried-past w s h =
      tag_at_lem w s j (suc i.list_version) carried-GoodKeys
      ∙ ap (tag_of w s) carried
      ∙ tag_of-carry_past i.list_version w s i.tags h
      ∙ sym (tag_at_lem w s i i.list_version g)

-- Edges that `carry` has moved on.
module _ (i j : NodeInfo) (d : Direction) (g : GoodEdges (suc i.list_version) (edges_of d i))
    (e : edges_of d j ≡ update_edges i.list_version (suc i.list_version) (edges_of d i)) where
  pub carried-GoodEdges : GoodEdges (suc (suc i.list_version)) (edges_of d j)
  carried-GoodEdges =
      subst (GoodEdges (suc (suc i.list_version))) (sym e)
        (update_edges-GoodEdges i.list_version (edges_of d i) g)

  pub carried-SameEdges : SameEdges d i j
  carried-SameEdges =
      ap (get_edges (suc i.list_version)) e ∙ update_edges-now i.list_version (edges_of d i) g.good

  pub carried-past_edges :
      (w : ℕ) (s : Str) → w < suc i.list_version → elem s (edges_at w d j) ≡ elem s (edges_at w d i)
  carried-past_edges w s h =
      ap (λ (es : List Adjacency). elem s (get_edges w es)) e
      ∙ ap (elem s) (update_edges-past i.list_version w (edges_of d i) g.good h)

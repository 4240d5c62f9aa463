-- ===== src/Node/Invariant.antt =====
-- When the record of a node is well formed, and what a reader sees of each of its versions.
use rangexx.Base.{ℕ, suc, ◌<◌, ◌≡◌, refl, Option, List, Str, elem}
use rangexx.Node.Info.{
  Adjacency, NodeInfo, Direction, forwards, backwards, opposite, edges_of, set_edges, get_edges,
}
use rangexx.Node.Update.{update_edges, update_keys, update_all_edge_versions, update_tag_versions}
use rangexx.Node.Edit.{carry}
use rangexx.Node.Tags.{find, tags_at}
use rangexx.Node.EdgeList.{GoodEdges}
use rangexx.Node.KeyList.{GoodKeys, tag_of, find-tags}

-- Both lists of edges and the keys are well formed at the version of the record.
pub record GoodInfo (i : NodeInfo) : Type 0 where
  pub edges : (d : Direction) → GoodEdges (suc i.list_version) (edges_of d i)
  pub keys : GoodKeys i.list_version i.tags

-- The names on the edges of a version.
abbrev pub edges_at : ℕ → Direction → NodeInfo → List Str
edges_at w d i = get_edges w (edges_of d i)

-- The values of a tag in a version.
abbrev pub tag_at : ℕ → Str → NodeInfo → Option (List Str)
tag_at w s i = find s (tags_at w i)

-- `j` follows on `i`: one version later, well formed, and with the whole past of `i`.
pub record Follows (i j : NodeInfo) : Type 0 where
  pub version : j.list_version ≡ suc i.list_version
  pub good : GoodInfo j
  pub past_edges :
      (w : ℕ) (d : Direction) (s : Str)
      → w < suc i.list_version
      → elem s (edges_at w d j) ≡ elem s (edges_at w d i)
  pub past_tags : (w : ℕ) (s : Str) → w < suc i.list_version → tag_at w s j ≡ tag_at w s i
  pub graph : j.graph_versions ≡ i.graph_versions

abbrev pub SameEdges : Direction → NodeInfo → NodeInfo → Type 0
SameEdges d i j = edges_at (suc i.list_version) d j ≡ edges_at i.list_version d i

abbrev pub SameTags : NodeInfo → NodeInfo → Type 0
SameTags i j = (s : Str) → tag_at (suc i.list_version) s j ≡ tag_at i.list_version s i

pub tag_at_lem :
    (w : ℕ) (s : Str) (i : NodeInfo) (lv : ℕ)
    → GoodKeys lv i.tags
    → tag_at w s i ≡ tag_of w s i.tags
unfolding tags_at
tag_at_lem w s i lv g = find-tags w s i.tags g.distinct

pub edges_of-set :
    (d : Direction) (es : List Adjacency) (i : NodeInfo) → edges_of d (set_edges d es i) ≡ es
unfolding edges_of set_edges
edges_of-set forwards es i = refl
edges_of-set backwards es i = refl

pub edges_of-set_opposite :
    (d : Direction) (es : List Adjacency) (i : NodeInfo)
    → edges_of (opposite d) (set_edges d es i) ≡ edges_of (opposite d) i
unfolding edges_of set_edges opposite
edges_of-set_opposite forwards es i = refl
edges_of-set_opposite backwards es i = refl

pub edges_of-carry :
    (d : Direction) (i : NodeInfo) (cmp new : ℕ)
    → edges_of d (carry i cmp new) ≡ update_edges cmp new (edges_of d i)
unfolding edges_of carry update_all_edge_versions update_tag_versions
edges_of-carry forwards i cmp new = refl
edges_of-carry backwards i cmp new = refl

pub tags-carry : (i : NodeInfo) (cmp new : ℕ) → (carry i cmp new).tags ≡ update_keys cmp new i.tags
unfolding carry update_all_edge_versions update_tag_versions
tags-carry i cmp new = refl

-- The two lists of edges, one by one.
pub Direction-cases {ℓ} :
    (P : Direction → Type ℓ) (d : Direction) → P d → P (opposite d) → (e : Direction) → P e
unfolding opposite
Direction-cases P forwards p q forwards = p
Direction-cases P forwards p q backwards = q
Direction-cases P backwards p q forwards = q
Direction-cases P backwards p q backwards = p

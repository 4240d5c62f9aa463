-- ===== src/Node/PlaceEdge.antt =====
-- `place_edge`: it refuses exactly an edge that is there, and otherwise puts the edge last.
use rangexx.Base.{
  ℕ, suc, ◌<◌, ◌≡◌, true, false, Option, none, some, List, [], ◌∷◌, ◌++◌, Str, str_eq_iff, elem,
  arith, sym, ◌∙◌,
}
use mathlib.Core.Path.{subst}
use rangexx.Node.Versions.{has_version}
use rangexx.Node.Info.{Adjacency, get_edges}
use rangexx.Node.Update.{update_edges}
use rangexx.Node.Edit.{Found, already, prior, missing, find_edge, place_edge}
use rangexx.Node.EdgeList.{Fresh, GoodEdges, elem-Fresh, Split, FindSpec, find_edge_lem}
use rangexx.Node.EdgeMoves.{with_edge, with_edge-now, with_edge-past, with_edge-GoodEdges}

-- What `place_edge` promises: it refuses exactly an edge that is there, and otherwise the edge is
-- the last one of the new version, and no older version sees a change.
pub record Placed (other : Str) (cmp : ℕ) (es moved_es : List Adjacency) : Type 0 where
  pub fresh : elem other (get_edges cmp es) ≡ false
  pub now :
      get_edges (suc cmp) (update_edges cmp (suc cmp) moved_es) ≡ get_edges cmp es ++ other ∷ []
  pub past :
      (w : ℕ) (x : Str)
      → w < suc cmp
      → elem x (get_edges w (update_edges cmp (suc cmp) moved_es)) ≡ elem x (get_edges w es)
  pub good : GoodEdges (suc (suc cmp)) (update_edges cmp (suc cmp) moved_es)

abbrev pub PlaceSpec : Str → ℕ → List Adjacency → Option (List Adjacency) → Type 0
PlaceSpec other cmp es none = elem other (get_edges cmp es) ≡ true
PlaceSpec other cmp es (some moved_es) = Placed other cmp es moved_es

abbrev placed : Str → ℕ → List Adjacency → Found → Option (List Adjacency)
placed other new es already = none
placed other new es (prior others e) =
    some (others ++ record e { versions = new ∷ e.versions } ∷ [])
placed other new es missing = some (es ++ record { id = other; versions = new ∷ [] } ∷ [])

place_edge-placed :
    (other : Str) (cmp new : ℕ) (es : List Adjacency)
    → place_edge other cmp new es ≡ placed other new es (find_edge other cmp es)
unfolding place_edge
place_edge-placed other cmp new es = ground arith

Placed-missing :
    (other : Str) (cmp : ℕ) (es : List Adjacency)
    → GoodEdges (suc cmp) es
    → Fresh other es
    → Placed other cmp es (with_edge es other (suc cmp) [])
unfolding has_version
Placed-missing other cmp es g f = record {
  fresh = elem-Fresh other cmp es f;
  now = with_edge-now cmp es other [] g.good;
  past = λ w x h. with_edge-past cmp es other [] w x g.good h ∙ ground arith;
  good = with_edge-GoodEdges cmp es other [] g f tt;
}

Placed-prior :
    (other : Str) (cmp : ℕ) (es others : List Adjacency) (e : Adjacency)
    → Split other cmp es others e
    → Placed other cmp es (with_edge others e.id (suc cmp) e.versions)
Placed-prior other cmp es others e h =
    let name = (str_eq_iff other e.id).0 h.named in
    record {
      fresh = rw (← h.now) (elem-Fresh other cmp others h.fresh);
      now = with_edge-now cmp others e.id e.versions h.kept_good ∙ rw (h.now, name);
      past =
          λ w x lt. with_edge-past cmp others e.id e.versions w x h.kept_good lt ∙ sym (h.past w x);
      good =
          with_edge-GoodEdges cmp others e.id e.versions
            (record { good = h.kept_good; distinct = h.kept_distinct })
            (subst (λ s. Fresh s others) name h.fresh) h.edge_good.falls;
    }

pub place_edge_lem :
    (other : Str) (cmp : ℕ) (es : List Adjacency)
    → GoodEdges (suc cmp) es
    → PlaceSpec other cmp es (place_edge other cmp (suc cmp) es)
place_edge_lem other cmp es g =
    rw place_edge-placed
      (placed_spec (find_edge other cmp es) (find_edge_lem other cmp es g.good g.distinct))
  where
    placed_spec :
        (r : Found) → FindSpec other cmp es r → PlaceSpec other cmp es (placed other (suc cmp) es r)
    placed_spec already h = h
    placed_spec (prior others e) h = Placed-prior other cmp es others e h
    placed_spec missing h = Placed-missing other cmp es g h

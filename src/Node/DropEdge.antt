-- ===== src/Node/DropEdge.antt =====
-- `can_remove` and `drop_version`: an edge is taken from the new version alone.
use rangexx.Base.{
  ℕ, suc, ◌<◌, ◌≡◌, refl, inl, inr, true, false, List, [], ◌∷◌, Str, str_eq, elem, arith,
  if◌then◌else◌, Bool-cases,
}
use rangexx.Node.Versions.{has_version, has_version-Below, Below-mono}
use rangexx.Node.Info.{Adjacency, get_edges}
use rangexx.Node.Update.{update_edge, update_edges}
use rangexx.Node.Edit.{can_remove, drop_version, remove_last}
use rangexx.Node.EdgeList.{
  GoodEdge, Fresh, Distinct, GoodEdges, elem-Fresh, Fresh-eq, elem-get_edges,
}
use rangexx.Node.EdgeMoves.{
  id-update_edge, update_edge-versions, Fresh-update_edges, Distinct-update_edges,
  update_edges-GoodEdge, update_edge-GoodEdge, update_edge-now, update_edge-past, update_edges-now,
  update_edges-past,
}

-- The names that are not this one.
abbrev pub without : Str → List Str → List Str
without s [] = []
without s (t ∷ ts) = let rest = without s ts in if str_eq s t then rest else t ∷ rest

without-Fresh :
    (s : Str) (w : ℕ) (es : List Adjacency)
    → Fresh s es
    → without s (get_edges w es) ≡ get_edges w es
unfolding get_edges
without-Fresh s w [] f = refl
without-Fresh s w (e ∷ es) f = ground (arith, without-Fresh s w es f.1)

pub can_remove_lem :
    (other : Str) (cmp : ℕ) (es : List Adjacency)
    → Distinct es
    → can_remove other cmp es ≡ elem other (get_edges cmp es)
unfolding can_remove
can_remove_lem other cmp [] d = unfold elem get_edges in refl
can_remove_lem other cmp (e ∷ es) d = elim (Bool-cases (str_eq other e.id)) [
  | inl n ↦
      rw (n, elem-get_edges, n)
        (rw (elem-Fresh other cmp es (Fresh-eq other e.id es n d.0)) (ground arith))
  | inr n ↦ rw (n, elem-get_edges, n) (can_remove_lem other cmp es d.1)
]

get_edges_lem :
    (w : ℕ) (e : Adjacency) (es : List Adjacency)
    → get_edges w (e ∷ es)
      ≡ (if has_version w e.versions then e.id ∷ get_edges w es else get_edges w es)
unfolding get_edges
get_edges_lem w e es = refl

module _ (other : Str) (cmp : ℕ) where
  abbrev pub dropped : List Adjacency → List Adjacency
  dropped es = drop_version other (update_edges cmp (suc cmp) es)

  -- The edge itself, with its newest version taken off.
  abbrev cut : Adjacency → Adjacency
  cut e = record e { versions = remove_last (update_edge cmp (suc cmp) e).versions }

  dropped-here :
      (e : Adjacency) (es : List Adjacency)
      → str_eq other e.id ≡ true
      → dropped (e ∷ es) ≡ cut e ∷ update_edges cmp (suc cmp) es
  unfolding drop_version update_edges
  dropped-here e es n = rw (id-update_edge, n)

  dropped-there :
      (e : Adjacency) (es : List Adjacency)
      → str_eq other e.id ≡ false
      → dropped (e ∷ es) ≡ update_edge cmp (suc cmp) e ∷ dropped es
  unfolding drop_version update_edges
  dropped-there e es n = rw (id-update_edge, n)

  versions-cut :
      (e : Adjacency)
      → GoodEdge (suc cmp) e
      → has_version cmp e.versions ≡ true
      → (cut e).versions ≡ e.versions
  versions-cut e g c = rw (update_edge-versions cmp e g, c)

  Fresh-dropped : (s : Str) (es : List Adjacency) → Fresh s es → Fresh s (dropped es)
  unfolding drop_version update_edges update_edge
  Fresh-dropped s [] f = tt
  Fresh-dropped s (e ∷ es) f = elim (Bool-cases (str_eq other e.id)) [
    | inl n ↦ rw (dropped-here e es n) (f.0, Fresh-update_edges cmp (suc cmp) s es f.1)
    | inr n ↦ rw (dropped-there e es n) (f.0, Fresh-dropped s es f.1)
  ]

  -- Where the edge is the first one, its history is what it was before.
  module _ (e : Adjacency) (es : List Adjacency) (n : str_eq other e.id ≡ true) where
    Fresh-rest : GoodEdges (suc cmp) (e ∷ es) → Fresh other es
    Fresh-rest g = Fresh-eq other e.id es n g.distinct.0

    has_it :
        GoodEdges (suc cmp) (e ∷ es)
        → elem other (get_edges cmp (e ∷ es)) ≡ true
        → has_version cmp e.versions ≡ true
    has_it g h =
        ground (arith, h, n, elem-get_edges cmp other e es, elem-Fresh other cmp es (Fresh-rest g))

  -- With the edge among those of the current version, the next version has all others in their
  -- order, older versions see no change, and the list stays well formed.
  pub dropped-now :
      (es : List Adjacency)
      → GoodEdges (suc cmp) es
      → elem other (get_edges cmp es) ≡ true
      → get_edges (suc cmp) (dropped es) ≡ without other (get_edges cmp es)
  dropped-now [] g h = unfold get_edges drop_version update_edges in refl
  dropped-now (e ∷ es) g h = elim (Bool-cases (str_eq other e.id)) [
    | inl n ↦
        let c = has_it e es n g h in
        rw
          (
            dropped-here e es n,
            get_edges_lem (suc cmp) (cut e),
            get_edges_lem cmp e es,
            versions-cut e g.good.0 c,
            has_version-Below (suc cmp) (suc cmp) e.versions (omega arith) g.good.0.falls,
            c,
            n,
            without-Fresh other cmp es (Fresh-rest e es n g),
          )
          (update_edges-now cmp es g.good.1)
    | inr n ↦
        let ih =
          dropped-now es (record { good = g.good.1; distinct = g.distinct.1 })
            (ground (arith, h, n, elem-get_edges cmp other e es)) in
        rw
          (
            dropped-there e es n,
            get_edges_lem (suc cmp) (update_edge cmp (suc cmp) e),
            get_edges_lem cmp e es,
            update_edge-now cmp e g.good.0,
            id-update_edge,
            ih,
          )
          (ground (arith, n))
  ]

  pub dropped-past :
      (w : ℕ) (es : List Adjacency)
      → GoodEdges (suc cmp) es
      → elem other (get_edges cmp es) ≡ true
      → w < suc cmp
      → get_edges w (dropped es) ≡ get_edges w es
  dropped-past w [] g h lt = unfold get_edges drop_version update_edges in refl
  dropped-past w (e ∷ es) g h lt = elim (Bool-cases (str_eq other e.id)) [
    | inl n ↦ rw (
      dropped-here e es n,
      get_edges_lem w (cut e),
      get_edges_lem w e es,
      versions-cut e g.good.0 (has_it e es n g h),
      update_edges-past cmp w es g.good.1 lt,
    )
    | inr n ↦
        let ih =
          dropped-past w es (record { good = g.good.1; distinct = g.distinct.1 })
            (ground (arith, h, n, elem-get_edges cmp other e es)) lt in
        rw (
          dropped-there e es n,
          get_edges_lem w (update_edge cmp (suc cmp) e),
          get_edges_lem w e es,
          update_edge-past cmp w e g.good.0 lt,
          id-update_edge,
          ih,
        )
  ]

  GoodEdge-later : (e : Adjacency) → GoodEdge (suc cmp) e → GoodEdge (suc (suc cmp)) e
  GoodEdge-later e g = record {
    falls = Below-mono (suc cmp) (suc (suc cmp)) e.versions (omega arith) g.falls;
    held = g.held;
  }

  pub dropped-GoodEdges :
      (es : List Adjacency)
      → GoodEdges (suc cmp) es
      → elem other (get_edges cmp es) ≡ true
      → GoodEdges (suc (suc cmp)) (dropped es)
  dropped-GoodEdges [] g h = unfold drop_version update_edges in record { good = tt; distinct = tt }
  dropped-GoodEdges (e ∷ es) g h = elim (Bool-cases (str_eq other e.id)) [
    | inl n ↦ rw (dropped-here e es n) (record {
      good = (
        rw (versions-cut e g.good.0 (has_it e es n g h)) (GoodEdge-later e g.good.0),
        update_edges-GoodEdge cmp es g.good.1,
      );
      distinct = (
        Fresh-update_edges cmp (suc cmp) e.id es g.distinct.0,
        Distinct-update_edges cmp (suc cmp) es g.distinct.1,
      );
    })
    | inr n ↦
        let ih =
          dropped-GoodEdges es (record { good = g.good.1; distinct = g.distinct.1 })
            (ground (arith, h, n, elem-get_edges cmp other e es)) in
        rw (dropped-there e es n) (record {
          good = (update_edge-GoodEdge cmp e g.good.0, ih.good);
          distinct = (rw id-update_edge (Fresh-dropped e.id es g.distinct.0), ih.distinct);
        })
  ]

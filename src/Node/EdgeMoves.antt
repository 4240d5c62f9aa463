-- ===== src/Node/EdgeMoves.antt =====
-- How `update_edges`, `place_edge` and `drop_version` change what a list of edges says of each
-- version.
use rangexx.Base.{
  ℕ, suc, ◌<◌, ◌≡◌, refl, inl, inr, false, ◌&&◌, ◌||◌, List, [], ◌∷◌, ◌++◌, All, All-append, Str,
  str_eq, str_eq_iff, elem, elem-append, arith, if◌then◌else◌, Bool-cases, ◌∙◌,
}
use rangexx.Node.Versions.{
  has_version, has_version-Below, has_version-older, has_version_self, Below, Below-mono,
  update_unique_new_version_lem, update_unique_new_version_self,
}
use rangexx.Node.Info.{Adjacency, get_edges}
use rangexx.Node.Update.{update_edge, update_edges}
use rangexx.Node.EdgeList.{GoodEdge, Fresh, Distinct, GoodEdges}

pub id-update_edge : (cmp new : ℕ) (e : Adjacency) → (update_edge cmp new e).id ≡ e.id
unfolding update_edge
id-update_edge cmp new e = refl

update_edges-append :
    (cmp new : ℕ) (xs ys : List Adjacency)
    → update_edges cmp new (xs ++ ys) ≡ update_edges cmp new xs ++ update_edges cmp new ys
unfolding update_edges
update_edges-append cmp new [] ys = refl
update_edges-append cmp new (x ∷ xs) ys = rw (update_edges-append cmp new xs ys)

get_edges-append :
    (w : ℕ) (xs ys : List Adjacency) → get_edges w (xs ++ ys) ≡ get_edges w xs ++ get_edges w ys
unfolding get_edges
get_edges-append w [] ys = refl
get_edges-append w (x ∷ xs) ys = ground (arith, get_edges-append w xs ys)

pub Fresh-update_edges :
    (cmp new : ℕ) (s : Str) (es : List Adjacency) → Fresh s es → Fresh s (update_edges cmp new es)
unfolding update_edges update_edge
Fresh-update_edges cmp new s [] f = tt
Fresh-update_edges cmp new s (e ∷ es) f = (f.0, Fresh-update_edges cmp new s es f.1)

pub Distinct-update_edges :
    (cmp new : ℕ) (es : List Adjacency) → Distinct es → Distinct (update_edges cmp new es)
unfolding update_edges update_edge
Distinct-update_edges cmp new [] d = tt
Distinct-update_edges cmp new (e ∷ es) d =
    (Fresh-update_edges cmp new e.id es d.0, Distinct-update_edges cmp new es d.1)

Fresh-append : (s : Str) (xs ys : List Adjacency) → Fresh s xs → Fresh s ys → Fresh s (xs ++ ys)
Fresh-append s = All-append (λ e. str_eq s e.id ≡ false)

str_eq_comm : (s t : Str) → str_eq s t ≡ str_eq t s
str_eq_comm s t = ground (arith, str_eq_iff s t, str_eq_iff t s)

Distinct-append_one :
    (xs : List Adjacency) (e : Adjacency) → Distinct xs → Fresh e.id xs → Distinct (xs ++ e ∷ [])
Distinct-append_one [] e d f = (tt, tt)
Distinct-append_one (x ∷ xs) e d f = (
  Fresh-append x.id xs (e ∷ []) d.0 (str_eq_comm x.id e.id ∙ f.0, tt),
  Distinct-append_one xs e d.1 f.1,
)

module _ (cmp : ℕ) where
  pub update_edge-versions :
      (e : Adjacency)
      → GoodEdge (suc cmp) e
      → (update_edge cmp (suc cmp) e).versions
        ≡ (if has_version cmp e.versions then suc cmp ∷ e.versions else e.versions)
  unfolding update_edge
  update_edge-versions e g = ground (arith, update_unique_new_version_lem cmp e.versions g.falls)

  pub update_edge-GoodEdge :
      (e : Adjacency)
      → GoodEdge (suc cmp) e
      → GoodEdge (suc (suc cmp)) (update_edge cmp (suc cmp) e)
  update_edge-GoodEdge e g = elim (Bool-cases (has_version cmp e.versions)) [
    | inl c ↦ record {
      falls = rw (update_edge-versions e g, c) (omega arith, g.falls);
      held = rw (update_edge-versions e g, c) (omega arith);
    }
    | inr c ↦ record {
      falls =
          rw (update_edge-versions e g, c)
            (Below-mono (suc cmp) (suc (suc cmp)) e.versions (omega arith) g.falls);
      held = rw (update_edge-versions e g, c) g.held;
    }
  ]

  pub update_edge-now :
      (e : Adjacency)
      → GoodEdge (suc cmp) e
      → has_version (suc cmp) (update_edge cmp (suc cmp) e).versions ≡ has_version cmp e.versions
  update_edge-now e g = ground (
    arith,
    update_edge-versions e g,
    has_version_self (suc cmp) e.versions,
    has_version-Below (suc cmp) (suc cmp) e.versions,
  )

  pub update_edge-past :
      (w : ℕ) (e : Adjacency)
      → GoodEdge (suc cmp) e
      → w < suc cmp
      → has_version w (update_edge cmp (suc cmp) e).versions ≡ has_version w e.versions
  update_edge-past w e g h =
      ground (arith, update_edge-versions e g, has_version-older w (suc cmp) e.versions)

  pub update_edges-GoodEdge :
      (es : List Adjacency)
      → All (GoodEdge (suc cmp)) es
      → All (GoodEdge (suc (suc cmp))) (update_edges cmp (suc cmp) es)
  unfolding update_edges
  update_edges-GoodEdge [] g = tt
  update_edges-GoodEdge (e ∷ es) g = (update_edge-GoodEdge e g.0, update_edges-GoodEdge es g.1)

  -- Carrying the edges over changes neither what is there now nor what was.
  pub update_edges-now :
      (es : List Adjacency)
      → All (GoodEdge (suc cmp)) es
      → get_edges (suc cmp) (update_edges cmp (suc cmp) es) ≡ get_edges cmp es
  unfolding get_edges update_edges
  update_edges-now [] g = refl
  update_edges-now (e ∷ es) g = rw (update_edge-now e g.0, update_edges-now es g.1, id-update_edge)

  pub update_edges-past :
      (w : ℕ) (es : List Adjacency)
      → All (GoodEdge (suc cmp)) es
      → w < suc cmp
      → get_edges w (update_edges cmp (suc cmp) es) ≡ get_edges w es
  unfolding get_edges update_edges
  update_edges-past w [] g h = refl
  update_edges-past w (e ∷ es) g h =
      rw (update_edge-past w e g.0 h, update_edges-past w es g.1 h, id-update_edge)

  pub update_edges-GoodEdges :
      (es : List Adjacency)
      → GoodEdges (suc cmp) es
      → GoodEdges (suc (suc cmp)) (update_edges cmp (suc cmp) es)
  update_edges-GoodEdges es g = record {
    good = update_edges-GoodEdge es g.good;
    distinct = Distinct-update_edges cmp (suc cmp) es g.distinct;
  }

-- An edge that has the new version already is left alone.
update_edge-new :
    (cmp new : ℕ) (s : Str) (vs : List ℕ)
    → update_edge cmp new (record { id = s; versions = new ∷ vs })
      ≡ record { id = s; versions = new ∷ vs }
unfolding update_edge
update_edge-new cmp new s vs = ground (arith, update_unique_new_version_self cmp new vs)

-- Edges with one more edge, that begins at the new version, at their end.
abbrev pub with_edge : List Adjacency → Str → ℕ → List ℕ → List Adjacency
with_edge es s new vs = es ++ record { id = s; versions = new ∷ vs } ∷ []

module _ (cmp : ℕ) (es : List Adjacency) (s : Str) (vs : List ℕ) where
  abbrev pub moved : List Adjacency
  moved = update_edges cmp (suc cmp) (with_edge es s (suc cmp) vs)

  moved-eq : moved ≡ with_edge (update_edges cmp (suc cmp) es) s (suc cmp) vs
  unfolding update_edges
  moved-eq = rw (update_edges-append, update_edge-new)

  pub with_edge-now :
      All (GoodEdge (suc cmp)) es → get_edges (suc cmp) moved ≡ get_edges cmp es ++ s ∷ []
  unfolding get_edges
  with_edge-now g = rw (moved-eq, get_edges-append, update_edges-now cmp es g, has_version_self)

  pub with_edge-past :
      (w : ℕ) (x : Str)
      → All (GoodEdge (suc cmp)) es
      → w < suc cmp
      → elem x (get_edges w moved) ≡ (elem x (get_edges w es) || (str_eq x s && has_version w vs))
  unfolding get_edges elem
  with_edge-past w x g h =
      rw
        (
          moved-eq,
          get_edges-append,
          update_edges-past cmp w es g h,
          has_version-older w (suc cmp) vs h,
          elem-append,
        )
        (ground arith)

  pub with_edge-GoodEdges :
      GoodEdges (suc cmp) es → Fresh s es → Below (suc cmp) vs → GoodEdges (suc (suc cmp)) moved
  with_edge-GoodEdges g f b = rw moved-eq (record {
    good =
        All-append (GoodEdge (suc (suc cmp))) (update_edges cmp (suc cmp) es) _
          (update_edges-GoodEdge cmp es g.good)
          (record { falls = (omega arith, b); held = omega arith }, tt);
    distinct =
        Distinct-append_one _ _ (Distinct-update_edges cmp (suc cmp) es g.distinct)
          (Fresh-update_edges cmp (suc cmp) s es f);
  })

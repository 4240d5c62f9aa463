-- ===== src/Node/EdgeList.antt =====
-- What the list of edges of one direction says of each version, and how `place_edge`,
-- `drop_version` and `update_edges` change it.
use rangexx.Base.{
  ℕ, suc, ◌<◌, ◌≡◌, refl, inl, inr, true, false, ◌&&◌, ◌||◌, List, [], ◌∷◌, All, length, Str,
  str_eq, str_eq_iff, elem, arith, if◌then◌else◌, Bool-cases,
}
use rangexx.Node.Versions.{has_version, has_version-Below, current, older, scan_edge, Below}
use rangexx.Node.Info.{Adjacency, get_edges}
use rangexx.Node.Edit.{Found, already, prior, missing, keep, find_edge}

-- An edge of a record at a version below `b`.
pub record GoodEdge (b : ℕ) (e : Adjacency) : Type 0 where
  pub falls : Below b e.versions
  pub held : 0 < length e.versions

-- No edge has this name.
abbrev pub Fresh : Str → List Adjacency → Type 0
Fresh s es = All (λ e. str_eq s e.id ≡ false) es

abbrev pub Distinct : List Adjacency → Type 0
Distinct [] = Unit
Distinct (e ∷ es) = Fresh e.id es × Distinct es

pub record GoodEdges (b : ℕ) (es : List Adjacency) : Type 0 where
  pub good : All (GoodEdge b) es
  pub distinct : Distinct es

scan_edge_lem :
    (cmp : ℕ) (vs : List ℕ)
    → Below (suc cmp) vs
    → 0 < length vs
    → scan_edge cmp vs ≡ (if has_version cmp vs then current else older)
unfolding scan_edge has_version
scan_edge_lem cmp [] p h = absurd (omega arith)
scan_edge_lem cmp (v ∷ vs) p h = ground (arith, has_version-Below v cmp vs)

pub elem-Fresh :
    (s : Str) (w : ℕ) (es : List Adjacency) → Fresh s es → elem s (get_edges w es) ≡ false
unfolding elem get_edges
elem-Fresh s w [] h = refl
elem-Fresh s w (e ∷ es) h = ground (arith, elem-Fresh s w es h.1)

-- `prior others e` splits the edges at the edge with the name.
pub record Split (other : Str) (cmp : ℕ) (es others : List Adjacency) (e : Adjacency) : Type 0 where
  pub named : str_eq other e.id ≡ true
  pub old : has_version cmp e.versions ≡ false
  pub now : get_edges cmp others ≡ get_edges cmp es
  pub fresh : Fresh other others
  pub kept_good : All (GoodEdge (suc cmp)) others
  pub kept_distinct : Distinct others
  pub edge_good : GoodEdge (suc cmp) e
  pub kept_fresh : (s : Str) → Fresh s es → Fresh s others
  pub past :
      (w : ℕ) (s : Str)
      → elem s (get_edges w es)
        ≡ (elem s (get_edges w others) || (str_eq s e.id && has_version w e.versions))

abbrev pub FindSpec : Str → ℕ → List Adjacency → Found → Type 0
FindSpec other cmp es already = elem other (get_edges cmp es) ≡ true
FindSpec other cmp es (prior others e) = Split other cmp es others e
FindSpec other cmp es missing = Fresh other es

pub elem-get_edges :
    (w : ℕ) (s : Str) (e : Adjacency) (es : List Adjacency)
    → elem s (get_edges w (e ∷ es))
      ≡ ((str_eq s e.id && has_version w e.versions) || elem s (get_edges w es))
unfolding elem get_edges
elem-get_edges w s e es = ground arith

keep-Split :
    (other : Str) (cmp : ℕ) (x : Adjacency) (es others : List Adjacency) (e : Adjacency)
    → GoodEdge (suc cmp) x
    → Fresh x.id es
    → str_eq other x.id ≡ false
    → Split other cmp es others e
    → Split other cmp (x ∷ es) (x ∷ others) e
unfolding get_edges
keep-Split other cmp x es others e g f n h = record {
  named = h.named;
  old = h.old;
  now = rw h.now;
  fresh = (n, h.fresh);
  kept_good = (g, h.kept_good);
  kept_distinct = (h.kept_fresh x.id f, h.kept_distinct);
  edge_good = h.edge_good;
  kept_fresh = λ s p. (p.0, h.kept_fresh s p.1);
  past = λ w s. ground (arith, elem-get_edges w s x es, elem-get_edges w s x others, h.past w s);
}

keep-FindSpec :
    (other : Str) (cmp : ℕ) (x : Adjacency) (es : List Adjacency) (r : Found)
    → GoodEdge (suc cmp) x
    → Fresh x.id es
    → str_eq other x.id ≡ false
    → FindSpec other cmp es r
    → FindSpec other cmp (x ∷ es) (keep x r)
keep-FindSpec other cmp x es already g f n h = ground (arith, elem-get_edges cmp other x es)
keep-FindSpec other cmp x es (prior others e) g f n h = keep-Split other cmp x es others e g f n h
keep-FindSpec other cmp x es missing g f n h = (n, h)

pub Fresh-eq : (s t : Str) (es : List Adjacency) → str_eq s t ≡ true → Fresh t es → Fresh s es
Fresh-eq s t [] h f = tt
Fresh-eq s t (e ∷ es) h f = (rw ((str_eq_iff s t).0 h) f.0, Fresh-eq s t es h f.1)

Split-here :
    (other : Str) (cmp : ℕ) (x : Adjacency) (es : List Adjacency)
    → GoodEdge (suc cmp) x
    → All (GoodEdge (suc cmp)) es
    → Fresh x.id es
    → Distinct es
    → str_eq other x.id ≡ true
    → has_version cmp x.versions ≡ false
    → Split other cmp (x ∷ es) es x
unfolding get_edges
Split-here other cmp x es g gs f d n o = record {
  named = n;
  old = o;
  now = rw o;
  fresh = Fresh-eq other x.id es n f;
  kept_good = gs;
  kept_distinct = d;
  edge_good = g;
  kept_fresh = λ s p. p.1;
  past = λ w s. ground (arith, elem-get_edges w s x es);
}

pub find_edge_lem :
    (other : Str) (cmp : ℕ) (es : List Adjacency)
    → All (GoodEdge (suc cmp)) es
    → Distinct es
    → FindSpec other cmp es (find_edge other cmp es)
unfolding find_edge
find_edge_lem other cmp [] g d = tt
find_edge_lem other cmp (x ∷ es) g d = elim (Bool-cases (str_eq other x.id)) [
  | inr n ↦ rw n (
      keep-FindSpec other cmp x es (find_edge other cmp es) g.0 d.0 n
        (find_edge_lem other cmp es g.1 d.1))
  | inl n ↦ elim (Bool-cases (has_version cmp x.versions)) [
    | inl c ↦
        rw (n, scan_edge_lem cmp x.versions g.0.falls g.0.held, c)
          (ground (arith, elem-get_edges cmp other x es))
    | inr c ↦
        rw (n, scan_edge_lem cmp x.versions g.0.falls g.0.held, c)
          (Split-here other cmp x es g.0 g.1 d.0 d.1 n c)
  ]
]

-- ===== src/Api/Frames.antt =====
-- What holds at each round of the loop of `environment_topological_sort`: the stack is a path from the
-- root, and the nodes that are done have all their edges among those done before.
use rangexx.Base.{
  ◌≡◌, refl, sym, ap, inl, inr, true, false, ◌||◌, List, [], ◌∷◌, map, Str, str_eq, str_eq_iff,
  elem, All, arith, Bool-cases,
}
use rangexx.Search.Loop.{seen}
use rangexx.Search.Reach.{seen_same, In, All-map, seen_first, Distinct, Reaches}
use rangexx.Search.More.{Reaches-one}
use rangexx.Graph.Interface.{NodeIface}
use rangexx.Api.Sort.{Frame, Marks, out_edges, erase, marked}

abbrev pub nodes_of : {V : Type 0} → List (Frame V) → List V
nodes_of fs = map (λ f. f.0) fs

module _ {V : Type 0} (node : NodeIface V) where
  abbrev name : V → Str
  name = node.name

  abbrev out : V → List V
  out = out_edges node

  pub seen-erase :
      (e v : V) (us : List V)
      → (name e ≡ name v → seen name e (erase node v us) ≡ false)
        × (str_eq (name e) (name v) ≡ false → seen name e (erase node v us) ≡ seen name e us)
  unfolding erase seen elem
  seen-erase e v [] = (λ q. refl, λ q. refl)
  seen-erase e v (u ∷ us) = elim (Bool-cases (str_eq (name v) (name u))) [
    | inl k ↦ (
      λ q. ground (arith, k, (seen-erase e v us).0 q),
      λ q. ground (
        arith,
        k,
        (seen-erase e v us).1 q,
        q,
        str_eq_iff (name e) (name u),
        str_eq_iff (name v) (name u),
        str_eq_iff (name e) (name v),
        sym ((str_eq_iff (name v) (name u)).0 k),
      ),
    )
    | inr k ↦ (
      λ q. ground (arith, k, (seen-erase e v us).0 q, ap (λ (s : Str). str_eq s (name u)) q),
      λ q. ground (arith, k, (seen-erase e v us).1 q),
    )
  ]

  pub seen-marked :
      (e v : V) (us : List V)
      → seen name e (marked node v us) ≡ (str_eq (name e) (name v) || seen name e us)
  seen-marked e v us = elim (Bool-cases (seen name v us)) [
    | inl k ↦ rw k (ground (arith, k, str_eq_iff (name e) (name v), seen_same name e v us))
    | inr k ↦ rw k (seen_first name e v us)
  ]

  -- An edge was taken and is done, or is still to be taken, or leads to the frame above.
  abbrev pub Taken : List V → List V → List V → V → Type 0
  Taken visited rest above e =
      (seen name e visited || (seen name e rest || seen name e above)) ≡ true

  abbrev pub Kept : List V → List V → Frame V → Type 0
  Kept visited above (v, rest) =
      All (Taken visited rest above) (out v) × All (λ e. In e (out v)) rest

  -- The frames from the top down to the one of the root.
  abbrev pub Chain : V → List V → List V → List (Frame V) → Type 0
  Chain root visited above [] = ⊥
  Chain root visited above ((v, rest) ∷ []) = (v ≡ root) × Kept visited above (v, rest)
  Chain root visited above ((v, rest) ∷ (u, more) ∷ fs) =
      In v (out u) × (Kept visited above (v, rest) × Chain root visited (v ∷ []) ((u, more) ∷ fs))

  abbrev pub Ordered : List V → Type 0
  Ordered [] = Unit
  Ordered (v ∷ vs) = All (λ e. seen name e vs ≡ true) (out v) × Ordered vs

  -- Between the roots.
  pub record Placed (roots : List V) (m : Marks V) : Type 0 where
    pub ordered : Ordered m.visited
    pub once : Distinct name m.visited
    pub sound : All (Reaches name out roots) m.visited

  pub record Stacked (roots : List V) (root : V) (m : Marks V) (onstack : List V) (v : V)
      (rest : List V) (fs : List (Frame V)) : Type 0 where
    pub placed : Placed roots m
    pub chain : Chain root m.visited [] ((v, rest) ∷ fs)
    pub apart : Distinct name (nodes_of ((v, rest) ∷ fs))
    pub unvisited : All (λ u. seen name u m.visited ≡ false) (nodes_of ((v, rest) ∷ fs))
    pub reached : All (Reaches name out roots) (nodes_of ((v, rest) ∷ fs))
    pub on :
        (e : V)
        → (str_eq (name e) (name v) || seen name e onstack)
          ≡ (str_eq (name e) (name v) || seen name e (nodes_of fs))
    pub underway :
        (e : V)
        → seen name e m.visiting ≡ true
        → (seen name e m.visited || seen name e (nodes_of ((v, rest) ∷ fs))) ≡ true

  -- The root is at the bottom.
  pub bottom :
      (root : V) (visited above : List V) (fs : List (Frame V))
      → Chain root visited above fs
      → In root (nodes_of fs)
  bottom root visited above [] h = absurd h
  bottom root visited above ((v, rest) ∷ []) h = inl (sym h.0)
  bottom root visited above ((v, rest) ∷ (u, more) ∷ fs) h =
      inr (bottom root visited (v ∷ []) ((u, more) ∷ fs) h.1.1)

  -- What was taken stays so where more is done, or another frame is above.
  abbrev pub Moved : List V → List V → List V → List V → Type 0
  Moved visited above later over =
      (e : V) (rest : List V) → Taken visited rest above e → Taken later rest over e

  Kept-Moved :
      (visited above later over : List V)
      → Moved visited above later over
      → (v : V) (rest : List V) → Kept visited above (v, rest)
      → Kept later over (v, rest)
  Kept-Moved visited above later over moved v rest h = (
    All-map (Taken visited rest above) (Taken later rest over) (out v) (λ e. moved e rest) h.0,
    h.1,
  )

  pub Chain-Moved :
      (root : V) (visited above later over : List V)
      → ((e : V) → seen name e visited ≡ true → seen name e later ≡ true)
      → Moved visited above later over
      → (fs : List (Frame V)) → Chain root visited above fs
      → Chain root later over fs
  Chain-Moved root visited above later over grows moved [] h = absurd h
  Chain-Moved root visited above later over grows moved ((v, rest) ∷ []) h =
      (h.0, Kept-Moved visited above later over moved v rest h.1)
  Chain-Moved root visited above later over grows moved ((v, rest) ∷ (u, more) ∷ fs) h = (
    h.0,
    (
      Kept-Moved visited above later over moved v rest h.1.0,
      Chain-Moved root visited (v ∷ []) later (v ∷ []) grows
          (λ e left k. ground (arith, k, grows e)) ((u, more) ∷ fs) h.1.1,
    ),
  )

  -- From a frame a path leads to the top, and on to its edge.
  pub trail :
      (root : V) (visited above : List V) (v : V) (rest : List V) (fs : List (Frame V))
      → Chain root visited above ((v, rest) ∷ fs)
      → (e : V) → Reaches name out (out v) e
      → (w : V) → In w (nodes_of ((v, rest) ∷ fs))
      → Reaches name out (out w) e
  trail root visited above v rest fs h e r w (inl same) = rw same r
  trail root visited above v rest [] h e r w (inr i) = absurd i
  trail root visited above v rest ((u, more) ∷ fs) h e r w (inr i) =
      trail root visited (v ∷ []) u more fs h.1.1 e
        (let (n, (j, path)) = Reaches-one name out (out v) e r in below n j path) w i
    where
      below : (n : V) → In n (out v) → Reaches name out (n ∷ []) e → Reaches name out (out u) e
      below n j path = after path
        where
          after : {x : V} → Reaches name out (n ∷ []) x → Reaches name out (out u) x
          after (Reaches.here (inl q)) = rw q (Reaches.next (Reaches.here h.0) j)
          after (Reaches.here (inr q)) = absurd q
          after (Reaches.next p q) = Reaches.next (after p) q

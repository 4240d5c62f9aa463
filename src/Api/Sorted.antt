-- ===== src/Api/Sorted.antt =====
-- The loop of `environment_topological_sort` on the stack of one root: how it ends, and when.
use rangexx.Base.{
  ℕ, zero, suc, ◌+◌, ◌*◌, ◌≤◌, ◌≡◌, refl, sym, ◌∙◌, inl, inr, true, false, ◌||◌, List, [], ◌∷◌, Str,
  str_eq_refl, codes, All, arith, Bool-cases, length,
}
use rangexx.Base.Results.{Result, ok, err, throw, Exception, graph_cycle}
use rangexx.Search.Loop.{depth, push_all, seen}
use rangexx.Search.Ends.{weight, weight-seen, length-push_all, IsClosed, IsNamed, Within, All-edges}
use rangexx.Search.Reach.{All-at, seen_first, Reaches}
use rangexx.Search.More.{seen-found}
use rangexx.Graph.Interface.{NodeIface}
use rangexx.Api.Sort.{Frame, Marks, out_edges, frame, erase, marked, done, sort_from}
use rangexx.Api.Frames.{nodes_of, Placed, Stacked, bottom, trail}
use rangexx.Api.Rounds.{marked-on, root_done, Stacked-done}
use rangexx.Api.Taken.{Stacked-skip, Stacked-push, top-In}

module _ {V : Type 0} (node : NodeIface V) where
  abbrev name : V → Str
  name = node.name

  abbrev out : V → List V
  out = out_edges node

  -- A path of edges that comes back to the name of its first node.
  pub record Cycle (roots : List V) : Type 0 where
    pub first : V
    pub reached : Reaches name out roots first
    pub last : V
    pub path : Reaches name out (out first) last
    pub back : name last ≡ name first

  pub record SortedFrom (roots : List V) (root : V) (before m : Marks V) : Type 0 where
    pub placed : Placed node roots m
    pub settled : (e : V) → seen name e m.visiting ≡ true → seen name e m.visited ≡ true
    pub listed : seen name root m.visited ≡ true
    pub grown : (e : V) → seen name e before.visited ≡ true → seen name e m.visited ≡ true

  abbrev pub Thrown : List V → Exception → Type 0
  Thrown roots x = (x.kind ≡ graph_cycle) × Cycle roots

  abbrev pub FromSpec : List V → V → Marks V → Result (Marks V) → Type 0
  FromSpec roots root before (ok m) = SortedFrom roots root before m
  FromSpec roots root before (err x) = Thrown roots x

  FromSpec-grown :
      (roots : List V) (root : V) (before m : Marks V)
      → ((e : V) → seen name e before.visited ≡ true → seen name e m.visited ≡ true)
      → (r : Result (Marks V)) → FromSpec roots root m r
      → FromSpec roots root before r
  FromSpec-grown roots root before m h (err x) p = p
  FromSpec-grown roots root before m h (ok k) p = record {
    placed = p.placed;
    settled = p.settled;
    listed = p.listed;
    grown = λ e i. p.grown e (h e i);
  }

  -- The edges that the frames have left, each taken twice, and the frames.
  abbrev pub owed : List (Frame V) → ℕ
  owed [] = 0
  owed ((v, rest) ∷ fs) = 1 + 2 * length rest + owed fs

  module _ (root : V) (fuel : ℕ) (m : Marks V) (onstack : List V) (v : V) (fs : List (Frame V))
      (new : seen name root m.visited ≡ false) where
    round_done :
        sort_from node root (suc fuel) m onstack ((v, []) ∷ fs)
        ≡ sort_from node root fuel (done node m v) (erase node v (marked node v onstack)) fs
    unfolding sort_from
    round_done = ground (arith, new)

    round_cycle :
        (e : V) (es : List V)
        → seen name e (marked node v onstack) ≡ true
        → sort_from node root (suc fuel) m onstack ((v, e ∷ es) ∷ fs)
          ≡ throw graph_cycle (codes "dependency cycle detected")
    unfolding sort_from
    round_cycle e es h = ground (arith, new, h)

    round_skip :
        (e : V) (es : List V)
        → seen name e (marked node v onstack) ≡ false
        → (seen name e m.visited || seen name e m.visiting) ≡ true
        → sort_from node root (suc fuel) m onstack ((v, e ∷ es) ∷ fs)
          ≡ sort_from node root fuel m (marked node v onstack) ((v, es) ∷ fs)
    unfolding sort_from
    round_skip e es h k = ground (arith, new, h, k)

    round_push :
        (e : V) (es : List V)
        → seen name e (marked node v onstack) ≡ false
        → (seen name e m.visited || seen name e m.visiting) ≡ false
        → sort_from node root (suc fuel) m onstack ((v, e ∷ es) ∷ fs)
          ≡ sort_from node root fuel
              (record { visited = m.visited; visiting = v ∷ m.visiting })
              (marked node v onstack)
              ((e, push_all depth (out e) []) ∷ (v, es) ∷ fs)
    unfolding sort_from frame
    round_push e es h k = ground (arith, new, h, k)

  module _ (same : IsNamed name out) (us : List V) (closed : IsClosed name out us) (roots : List V)
      (root : V) where
    -- `grey` are the nodes that were put on the stack.
    abbrev pub Grey : List V → Marks V → List (Frame V) → Type 0
    Grey grey m fs =
        (e : V) → seen name e grey ≡ (seen name e m.visited || seen name e (nodes_of fs))

    found-Cycle :
        (m : Marks V) (onstack : List V) (v e : V) (es : List V) (fs : List (Frame V))
        → Stacked node roots root m onstack v (e ∷ es) fs
        → seen name e (marked node v onstack) ≡ true
        → Cycle roots
    found-Cycle m onstack v e es fs s h =
        let (w, (i, q)) =
          seen-found name e (nodes_of ((v, e ∷ es) ∷ fs))
            (sym (marked-on node roots root m onstack v (e ∷ es) fs s e) ∙ h) in
        record {
          first = w;
          reached = All-at (Reaches name out roots) (nodes_of ((v, e ∷ es) ∷ fs)) w s.reached i;
          last = e;
          path =
              trail node root m.visited [] v (e ∷ es) fs s.chain e
                (Reaches.here (top-In node roots root m.visited v e es fs s.chain)) w i;
          back = q;
        }

    last_done :
        (m : Marks V) (onstack : List V) (v : V)
        → Stacked node roots root m onstack v [] []
        → SortedFrom roots root m (done node m v)
    last_done m onstack v s =
        let (placed, settled) = root_done node roots root m onstack v s in
        record {
          placed = placed;
          settled = settled;
          listed =
              rw s.chain.0
                (ground (arith, seen_first name root root m.visited, str_eq_refl (name root)));
          grown = λ e k. ground (arith, k, seen_first name e v m.visited);
        }

    unlisted :
        (m : Marks V) (onstack : List V) (v : V) (rest : List V) (fs : List (Frame V))
        → Stacked node roots root m onstack v rest fs
        → seen name root m.visited ≡ false
    unlisted m onstack v rest fs s =
        All-at (λ u. seen name u m.visited ≡ false) (nodes_of ((v, rest) ∷ fs)) root s.unvisited
          (bottom node root m.visited [] ((v, rest) ∷ fs) s.chain)

    inside :
        (m : Marks V) (onstack : List V) (v e : V) (es : List V) (fs : List (Frame V))
        → Stacked node roots root m onstack v (e ∷ es) fs
        → Within name out us v
        → Within name out us e
    inside m onstack v e es fs s w =
        All-at (Within name out us) (out v) e
          (All-edges name out (Within name out us) same us v closed w)
          (top-In node roots root m.visited v e es fs s.chain)

    fresh :
        (grey : List V) (m : Marks V) (onstack : List V) (v e : V) (es : List V)
        (fs : List (Frame V))
        → Stacked node roots root m onstack v (e ∷ es) fs
        → Grey grey m ((v, e ∷ es) ∷ fs)
        → seen name e (marked node v onstack) ≡ false
        → (seen name e m.visited || seen name e m.visiting) ≡ false
        → seen name e grey ≡ false
    fresh grey m onstack v e es fs s g k j =
        ground (arith, g e, k, j, marked-on node roots root m onstack v (e ∷ es) fs s e)

    -- Enough fuel: the frames and their edges, and twice the edges of the nodes that were not put on
    -- the stack.
    pub from_lem :
        (fuel : ℕ) (grey : List V) (m : Marks V) (onstack : List V) (v : V) (rest : List V)
        (fs : List (Frame V))
        → Stacked node roots root m onstack v rest fs
        → Grey grey m ((v, rest) ∷ fs)
        → All (Within name out us) (nodes_of ((v, rest) ∷ fs))
        → 2 * weight name out grey us + owed ((v, rest) ∷ fs) ≤ fuel
        → FromSpec roots root m (sort_from node root fuel m onstack ((v, rest) ∷ fs))
    from_lem zero grey m onstack v rest fs s g w h = absurd (ground (arith, h))
    from_lem (suc fuel) grey m onstack v [] [] s g w h =
        rw (round_done root fuel m onstack v [] (unlisted m onstack v [] [] s))
          (unfold sort_from in last_done m onstack v s)
    from_lem (suc fuel) grey m onstack v [] ((u, more) ∷ fs) s g w h =
        rw
          (round_done root fuel m onstack v ((u, more) ∷ fs)
            (unlisted m onstack v [] ((u, more) ∷ fs) s))
          (FromSpec-grown roots root m (done node m v)
            (λ e k. ground (arith, k, seen_first name e v m.visited))
            (sort_from node root fuel (done node m v) (erase node v (marked node v onstack))
              ((u, more) ∷ fs))
            (from_lem fuel grey (done node m v) (erase node v (marked node v onstack)) u more fs
              (Stacked-done node roots root m onstack v u more fs s)
              (λ e. ground (
                arith,
                g e,
                seen_first name e v m.visited,
                seen_first name e v (nodes_of ((u, more) ∷ fs)),
              ))
              w.1 (omega (arith, h))))
    from_lem (suc fuel) grey m onstack v (e ∷ es) fs s g w h =
        elim (Bool-cases (seen name e (marked node v onstack))) [
          | inl k ↦
              rw (round_cycle root fuel m onstack v fs (unlisted m onstack v (e ∷ es) fs s) e es k)
                (refl, found-Cycle m onstack v e es fs s k)
          | inr k ↦ elim (Bool-cases (seen name e m.visited || seen name e m.visiting)) [
            | inl j ↦
                rw
                  (round_skip root fuel m onstack v fs (unlisted m onstack v (e ∷ es) fs s) e es k
                    j)
                  (from_lem fuel grey m (marked node v onstack) v es fs
                    (Stacked-skip node roots root m onstack v e es fs k j s) g w (omega (arith, h)))
            | inr j ↦
                rw
                  (round_push root fuel m onstack v fs (unlisted m onstack v (e ∷ es) fs s) e es k
                    j)
                  (FromSpec-grown roots root m
                    (record { visited = m.visited; visiting = v ∷ m.visiting }) (λ x i. i)
                    (sort_from node root fuel
                      (record { visited = m.visited; visiting = v ∷ m.visiting })
                      (marked node v onstack) ((e, push_all depth (out e) []) ∷ (v, es) ∷ fs))
                    (from_lem fuel (e ∷ grey)
                      (record { visited = m.visited; visiting = v ∷ m.visiting })
                      (marked node v onstack) e (push_all depth (out e) []) ((v, es) ∷ fs)
                      (Stacked-push node roots root m onstack v e es fs k j s)
                      (λ x. ground (
                        arith,
                        g x,
                        seen_first name x e grey,
                        seen_first name x e (nodes_of ((v, es) ∷ fs)),
                        seen_first name x v (nodes_of fs),
                      ))
                      (inside m onstack v e es fs s w.0, w)
                      (omega (
                        arith,
                        h,
                        length-push_all {0} depth (out e) [],
                        weight-seen name out same grey us e (fresh grey m onstack v e es fs s g k j)
                            (inside m onstack v e es fs s w.0),
                      ))))
          ]
        ]

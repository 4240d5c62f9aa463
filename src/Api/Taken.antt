-- ===== src/Api/Taken.antt =====
-- A round of the loop of `environment_topological_sort` that takes an edge, and its start.
use rangexx.Base.{◌≡◌, refl, true, false, ◌||◌, List, [], ◌∷◌, Str, str_eq, str_eq_iff, arith}
use rangexx.Search.Loop.{depth, push_all, seen}
use rangexx.Search.Ends.{All-push_all}
use rangexx.Search.Reach.{In, All-In, All-map, seen-In, seen_first, seen-push_all, Reaches}
use rangexx.Search.Explored.{not_seen}
use rangexx.Graph.Interface.{NodeIface}
use rangexx.Api.Sort.{Frame, Marks, out_edges, frame, marked}
use rangexx.Api.Frames.{nodes_of, Taken, Kept, Chain, Placed, Stacked}
use rangexx.Search.Reach.{seen_same}
use rangexx.Api.Rounds.{marked-on}

module _ {V : Type 0} (node : NodeIface V) (roots : List V) (root : V) where
  abbrev name : V → Str
  name = node.name

  abbrev out : V → List V
  out = out_edges node

  pub Kept-frame : (visited above : List V) (v : V) → Kept node visited above (frame node v)
  unfolding frame
  Kept-frame visited above v = (
    All-In (Taken node visited (push_all depth (out v) []) above) (out v)
        (λ e i. ground (arith, seen-push_all name e depth (out v) [], seen-In name e (out v) i)),
    All-push_all (λ e. In e (out v)) depth (out v) []
        (All-In (λ e. In e (out v)) (out v) (λ e i. i)) tt,
  )

  Kept-skip :
      (visited above over : List V) (v e : V) (es : List V)
      → ((x : V)
          → str_eq (name x) (name e) ≡ true
          → (seen name x visited || seen name x over) ≡ true)
      → ((x : V) → seen name x above ≡ true → seen name x over ≡ true)
      → Kept node visited above (v, e ∷ es)
      → Kept node visited over (v, es)
  Kept-skip visited above over v e es h grows k = (
    All-map (Taken node visited (e ∷ es) above) (Taken node visited es over) (out v)
        (λ x j. ground (arith, j, h x, grows x, seen_first name x e es)) k.0,
    k.1.1,
  )

  Chain-skip :
      (visited over : List V) (v e : V) (es : List V) (fs : List (Frame V))
      → ((x : V)
          → str_eq (name x) (name e) ≡ true
          → (seen name x visited || seen name x over) ≡ true)
      → Chain node root visited [] ((v, e ∷ es) ∷ fs)
      → Chain node root visited over ((v, es) ∷ fs)
  Chain-skip visited over v e es [] h c = (
    c.0,
    Kept-skip visited [] over v e es h (λ x j. absurd (ground (arith, j, not_seen name x))) c.1,
  )
  Chain-skip visited over v e es ((u, more) ∷ fs) h c = (
    c.0,
    (
      Kept-skip visited [] over v e es h (λ x j. absurd (ground (arith, j, not_seen name x))) c.1.0,
      c.1.1,
    ),
  )

  -- An edge to a node that is done is left out.
  pub Stacked-skip :
      (m : Marks V) (onstack : List V) (v e : V) (es : List V) (fs : List (Frame V))
      → seen name e (marked node v onstack) ≡ false
      → (seen name e m.visited || seen name e m.visiting) ≡ true
      → Stacked node roots root m onstack v (e ∷ es) fs
      → Stacked node roots root m (marked node v onstack) v es fs
  Stacked-skip m onstack v e es fs off old s = record {
    placed = s.placed;
    chain =
        Chain-skip m.visited [] v e es fs
          (λ x q. ground (
            arith,
            seen_same name x e m.visited ((str_eq_iff (name x) (name e)).0 q),
            off,
            old,
            s.underway e,
            marked-on node roots root m onstack v (e ∷ es) fs s e,
          ))
          s.chain;
    apart = s.apart;
    unvisited = s.unvisited;
    reached = s.reached;
    on = λ x. ground (
      arith,
      marked-on node roots root m onstack v (e ∷ es) fs s x,
      seen_first name x v (nodes_of fs),
    );
    underway = s.underway;
  }

  -- The edge of the top is among its edges.
  pub top-In :
      (visited : List V) (v e : V) (es : List V) (fs : List (Frame V))
      → Chain node root visited [] ((v, e ∷ es) ∷ fs)
      → In e (out v)
  top-In visited v e es [] c = c.1.1.0
  top-In visited v e es ((u, more) ∷ fs) c = c.1.0.1.0

  -- An edge to a new node puts its frame on the top.
  pub Stacked-push :
      (m : Marks V) (onstack : List V) (v e : V) (es : List V) (fs : List (Frame V))
      → seen name e (marked node v onstack) ≡ false
      → (seen name e m.visited || seen name e m.visiting) ≡ false
      → Stacked node roots root m onstack v (e ∷ es) fs
      → Stacked node roots root
          (record { visited = m.visited; visiting = v ∷ m.visiting })
          (marked node v onstack)
          e
          (push_all depth (out e) [])
          ((v, es) ∷ fs)
  Stacked-push m onstack v e es fs off new s = record {
    placed = record { ordered = s.placed.ordered; once = s.placed.once; sound = s.placed.sound };
    chain = (
      top-In m.visited v e es fs s.chain,
      (
        unfold frame in Kept-frame m.visited [] e,
        Chain-skip m.visited (e ∷ []) v e es fs (λ x q. ground (arith, q, seen_first name x e []))
            s.chain,
      ),
    );
    apart = (ground (arith, off, marked-on node roots root m onstack v (e ∷ es) fs s e), s.apart);
    unvisited = (ground (arith, new), s.unvisited);
    reached = (Reaches.next s.reached.0 (top-In m.visited v e es fs s.chain), s.reached);
    on = λ x. ground (arith, marked-on node roots root m onstack v (e ∷ es) fs s x);
    underway = λ x k. ground (
      arith,
      k,
      s.underway x,
      seen_first name x v m.visiting,
      seen_first name x e (nodes_of ((v, es) ∷ fs)),
      seen_first name x v (nodes_of fs),
    );
  }

  -- The first frame.
  pub first_frame :
      (m : Marks V)
      → Placed node roots m
      → ((e : V) → seen name e m.visiting ≡ true → seen name e m.visited ≡ true)
      → seen name root m.visited ≡ false
      → In root roots
      → Stacked node roots root
          (record { visited = m.visited; visiting = root ∷ m.visiting })
          []
          root
          (push_all depth (out root) [])
          []
  first_frame m placed known new i = record {
    placed = record { ordered = placed.ordered; once = placed.once; sound = placed.sound };
    chain = (refl, unfold frame in Kept-frame m.visited [] root);
    apart = (not_seen name root, tt);
    unvisited = (new, tt);
    reached = (Reaches.here i, tt);
    on = λ e. ground arith;
    underway = λ e k.
        ground (arith, k, known e, seen_first name e root m.visiting, seen_first name e root []);
  }

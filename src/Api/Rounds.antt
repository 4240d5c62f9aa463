-- ===== src/Api/Rounds.antt =====
-- Each round of the loop of `environment_topological_sort` keeps what holds of the stack.
use rangexx.Base.{
  ◌≡◌, sym, ◌∙◌, inl, inr, true, false, ◌||◌, List, [], ◌∷◌, Str, str_eq, str_eq_iff, arith,
  Bool-cases,
}
use rangexx.Search.Loop.{seen}
use rangexx.Search.Reach.{All-In, All-at, All-map, seen-In, seen_first}
use rangexx.Search.Explored.{not_seen}
use rangexx.Graph.Interface.{NodeIface}
use rangexx.Api.Sort.{Frame, Marks, out_edges, erase, marked, done}
use rangexx.Api.Frames.{
  nodes_of, seen-erase, seen-marked, Taken, Kept, Chain, Placed, Stacked, Chain-Moved,
}
use rangexx.Search.Reach.{seen_same}

module _ {V : Type 0} (node : NodeIface V) (roots : List V) (root : V) where
  abbrev name : V → Str
  name = node.name

  abbrev out : V → List V
  out = out_edges node

  -- The names on the stack are those that are marked.
  pub marked-on :
      (m : Marks V) (onstack : List V) (v : V) (rest : List V) (fs : List (Frame V))
      → Stacked node roots root m onstack v rest fs
      → (e : V) → seen name e (marked node v onstack) ≡ seen name e (nodes_of ((v, rest) ∷ fs))
  marked-on m onstack v rest fs s e =
      seen-marked node e v onstack ∙ (s.on e ∙ sym (seen_first name e v (nodes_of fs)))

  top-Kept :
      (visited : List V) (f : Frame V) (fs : List (Frame V))
      → Chain node root visited [] (f ∷ fs)
      → Kept node visited [] f
  top-Kept visited (v, rest) [] h = h.1
  top-Kept visited (v, rest) ((u, more) ∷ fs) h = h.1.0

  Placed-done :
      (m : Marks V) (onstack : List V) (v : V) (fs : List (Frame V))
      → Stacked node roots root m onstack v [] fs
      → Placed node roots (done node m v)
  Placed-done m onstack v fs s = record {
    ordered = (
      All-map (Taken node m.visited [] []) (λ e. seen name e m.visited ≡ true) (out v)
          (λ e k. ground (arith, k, not_seen name e)) (top-Kept m.visited (v, []) fs s.chain).0,
      s.placed.ordered,
    );
    once = (s.unvisited.0, s.placed.once);
    sound = (s.reached.0, s.placed.sound);
  }

  underway-done :
      (m : Marks V) (onstack : List V) (v : V) (fs : List (Frame V))
      → Stacked node roots root m onstack v [] fs
      → (e : V) → seen name e (erase node v m.visiting) ≡ true
      → (seen name e (v ∷ m.visited) || seen name e (nodes_of fs)) ≡ true
  underway-done m onstack v fs s e k = elim (Bool-cases (str_eq (name e) (name v))) [
    | inl q ↦ ground (arith, q, seen_first name e v m.visited)
    | inr q ↦ ground (
      arith,
      q,
      k,
      (seen-erase node e v m.visiting).1 q,
      s.underway e,
      seen_first name e v m.visited,
      seen_first name e v (nodes_of fs),
    )
  ]

  -- The last frame is done.
  pub root_done :
      (m : Marks V) (onstack : List V) (v : V)
      → Stacked node roots root m onstack v [] []
      → Placed node roots (done node m v)
        × ((e : V)
            → seen name e (erase node v m.visiting) ≡ true
            → seen name e (v ∷ m.visited) ≡ true)
  root_done m onstack v s = (
    Placed-done m onstack v [] s,
    λ e k. ground (arith, underway-done m onstack v [] s e k, not_seen name e),
  )

  -- Another frame is done.
  pub Stacked-done :
      (m : Marks V) (onstack : List V) (v u : V) (more : List V) (fs : List (Frame V))
      → Stacked node roots root m onstack v [] ((u, more) ∷ fs)
      → Stacked node roots root (done node m v) (erase node v (marked node v onstack)) u more fs
  Stacked-done m onstack v u more fs s = record {
    placed = Placed-done m onstack v ((u, more) ∷ fs) s;
    chain =
        Chain-Moved node root m.visited (v ∷ []) (v ∷ m.visited) []
          (λ e k. ground (arith, k, seen_first name e v m.visited))
          (λ e rest k.
            ground
              (arith, k, seen_first name e v m.visited, seen_first name e v [], not_seen name e))
          ((u, more) ∷ fs) s.chain.1.1;
    apart = s.apart.1;
    unvisited =
        All-In (λ x. seen name x (v ∷ m.visited) ≡ false) (nodes_of ((u, more) ∷ fs))
          λ x i. ground (
            arith,
            seen_first name x v m.visited,
            All-at (λ y. seen name y m.visited ≡ false) (nodes_of ((u, more) ∷ fs)) x s.unvisited.1
                i,
            seen-In name x (nodes_of ((u, more) ∷ fs)) i,
            s.apart.0,
            str_eq_iff (name x) (name v),
            seen_same name x v (nodes_of ((u, more) ∷ fs)),
          );
    reached = s.reached.1;
    on = λ e. elim (Bool-cases (str_eq (name e) (name v))) [
      | inl q ↦ ground (
        arith,
        (seen-erase node e v (marked node v onstack)).0 ((str_eq_iff (name e) (name v)).0 q),
        s.apart.0,
        seen_same name e v (nodes_of ((u, more) ∷ fs)) ((str_eq_iff (name e) (name v)).0 q),
        seen_first name e u (nodes_of fs),
      )
      | inr q ↦ ground (
        arith,
        q,
        (seen-erase node e v (marked node v onstack)).1 q,
        marked-on m onstack v [] ((u, more) ∷ fs) s e,
        seen_first name e v (nodes_of ((u, more) ∷ fs)),
        seen_first name e u (nodes_of fs),
      )
    ];
    underway = underway-done m onstack v ((u, more) ∷ fs) s;
  }

-- ===== src/Api/Meeting.antt =====
-- What `nearest_common_ancestor` finds.
use mathlib.Core.Path.{subst}
use rangexx.Base.{
  ℕ, zero, suc, ◌+◌, ◌*◌, ◌≤◌, ◌≡◌, ◌≢◌, refl, inl, inr, true, false, ◌||◌, ◌&&◌, Option, none,
  some, List, [], ◌∷◌, Str, All, arith, Bool-cases, length,
}
use rangexx.Base.Results.{Result, ok, err, ◌>>=◌}
use rangexx.Search.Loop.{seen}
use rangexx.Search.Ends.{weight, IsClosed, IsNamed, Within}
use rangexx.Search.Reach.{Reaches, Sound, seen_same, seen-In}
use rangexx.Search.Explored.{not_seen, Explored, Sound-Explored}
use rangexx.Graph.Interface.{NodeIface, GraphInterface}
use rangexx.Api.Names.{unprefix_node_name}
use rangexx.Api.Lookup.{lookup}
use rangexx.Api.Searches.{never}
use rangexx.Api.Found.{Alike, Finite}
use rangexx.Api.FirstKey.{lookup-Within}
use rangexx.Api.Ancestor.{
  Deep, Side, Best, is_empty, turn, is_far, meet, side_of, ancestor_name, nearest_common_ancestor,
}
use rangexx.Api.Turns.{nodes, From, Searching, BestOk, turn_lem, needs, turn_less, turn-Within}

empty_eq : {V : Type 0} (q : List (Deep V)) → is_empty q ≡ true → q ≡ []
empty_eq [] h = refl
empty_eq (v ∷ vs) h = absurd (ground (arith, h))

module _ {V : Type 0} (node : NodeIface V) where
  abbrev name : V → Str
  name = node.name

  abbrev up : V → List V
  up = node.reverse_edges

  -- Nodes of one name above both.
  abbrev pub NoCommon : V → V → Type 0
  NoCommon n m =
      (u w : V)
      → Reaches node.name node.reverse_edges (n ∷ []) u
      → Reaches node.name node.reverse_edges (m ∷ []) w
      → node.name u ≢ node.name w

  abbrev pub MeetSpec : V → V → Result (Best V) → Type 0
  MeetSpec n m (ok none) = NoCommon n m
  MeetSpec n m (ok (some (a, distance))) = From node n a × From node m a
  MeetSpec n m (err x) = ⊥

  swap :
      (n m : V) (us vs : List (Deep V)) (best : Best V)
      → BestOk node n m us vs best
      → BestOk node m n vs us best
  swap n m us vs none h = λ e. ground (arith, h e)
  swap n m us vs (some (a, d)) h = (h.1, h.0)

  far_some :
      (n m : V) (us vs q q' : List (Deep V)) (best : Best V)
      → (is_far node q best || is_far node q' best) ≡ true
      → BestOk node n m us vs best
      → MeetSpec n m (ok best)
  far_some n m us vs q q' (some (a, d)) h p = p
  far_some n m us vs q q' none h p = absurd (ground (arith, h, near q, near q'))
    where
      near : (q : List (Deep V)) → is_far node q none ≡ false
      near [] = refl
      near (v ∷ vs) = refl

  module _ (same : IsNamed name up) (all : List V) (closed : IsClosed name up all) where
    finished :
        (n m : V) (us vs : List (Deep V)) (best : Best V)
        → Explored name up never (n ∷ []) (nodes us)
        → Explored name up never (m ∷ []) (nodes vs)
        → BestOk node n m us vs best
        → MeetSpec n m (ok best)
    finished n m us vs (some (a, d)) p q h = h
    finished n m us vs none p q h = λ u w r t e.
        ground (arith, h u, p.complete u r, q.complete w t, seen_same name u w (nodes vs) e)

    all_done :
        (n m : V) (one two : Side V) (best : Best V)
        → Searching node n one
        → Searching node m two
        → BestOk node n m one.visited two.visited best
        → (is_empty one.queue && is_empty two.queue) ≡ true
        → MeetSpec n m (ok best)
    all_done n m one two best p q h e =
        finished n m one.visited two.visited best
          (explored n one p (empty_eq one.queue (ground (arith, e))))
          (explored m two q (empty_eq two.queue (ground (arith, e)))) h
      where
        explored :
            (n : V) (s : Side V)
            → Searching node n s
            → s.queue ≡ []
            → Explored name up never (n ∷ []) (nodes s.visited)
        explored n s p e =
            Sound-Explored name up same never (n ∷ []) (nodes s.visited)
              (subst (λ q. Sound name up never (n ∷ []) (nodes s.visited) (nodes q)) e p)

    abbrev waits : List (Deep V) → ℕ
    waits [] = 0
    waits (v ∷ vs) = 1

    turn_needs :
        (others us q : List (Deep V)) (best : Best V)
        → All (Within name up all) (nodes q)
        → needs node all (turn node others (record { visited = us; queue = q }) best).0 + waits q
          ≤ needs node all (record { visited = us; queue = q })
    turn_needs others us [] best h = unfold turn in omega arith
    turn_needs others us (v ∷ rest) best h =
        omega (arith, turn_less node same all closed others us v rest best h)

    waits-empty : (q : List (Deep V)) → is_empty q ≡ false → waits q ≡ 1
    waits-empty [] h = absurd (ground (arith, h))
    waits-empty (v ∷ vs) h = refl

    waits-length : (q : List (Deep V)) → waits q ≤ length q
    waits-length [] = omega arith
    waits-length (v ∷ vs) = omega arith

    meet_lem :
        (n m : V) (fuel : ℕ) (one two : Side V) (best : Best V)
        → Searching node n one
        → Searching node m two
        → BestOk node n m one.visited two.visited best
        → All (Within name up all) (nodes one.queue)
        → All (Within name up all) (nodes two.queue)
        → needs node all one + needs node all two ≤ fuel
        → MeetSpec n m (meet node fuel one two best)
    unfolding meet
    meet_lem n m zero one two best p q b w x h =
        elim (Bool-cases (is_empty one.queue && is_empty two.queue)) [
          | inl e ↦ rw e (all_done n m one two best p q b e)
          | inr e ↦ absurd (
              ground (
                arith,
                e,
                h,
                waits-empty one.queue,
                waits-empty two.queue,
                waits-length one.queue,
                waits-length two.queue,
              ))
        ]
    meet_lem n m (suc fuel) one two best p q b w x h =
        elim (Bool-cases (is_empty one.queue && is_empty two.queue)) [
          | inl e ↦ rw e (all_done n m one two best p q b e)
          | inr e ↦
              let first = turn_lem node n m two.visited q.done one.visited one.queue best p b in
              let after = turn node two.visited one best in
              let second =
                turn_lem node m n after.0.visited first.0.done two.visited two.queue after.1 q
                  (swap n m after.0.visited two.visited after.1 first.1) in
              let last = turn node after.0.visited two after.1 in
              let ok_last = swap m n last.0.visited after.0.visited last.1 second.1 in
              elim (Bool-cases (is_far node one.queue last.1 || is_far node two.queue last.1)) [
                | inl f ↦ rw e (
                    rw f (
                      far_some n m after.0.visited last.0.visited one.queue two.queue last.1 f
                        ok_last))
                | inr f ↦ rw e (
                    rw f (
                      meet_lem n m fuel after.0 last.0 last.1 first.0 second.0 ok_last
                        (turn-Within node same all closed two.visited one.visited one.queue best w)
                        (turn-Within node same all closed after.0.visited two.visited two.queue
                          after.1 x)
                        (ground (
                          arith,
                          e,
                          h,
                          waits-empty one.queue,
                          waits-empty two.queue,
                          turn_needs two.visited one.visited one.queue best w,
                          turn_needs after.0.visited two.visited two.queue after.1 x,
                        ))))
              ]
        ]

module _ {V : Type 0} (g : GraphInterface V) (env_name : Str) where
  -- What the two lookups throw; or the name of a node above both; or there is none.
  abbrev pub AncestorSpec : Result V → Result V → Result (Option Str) → Type 0
  AncestorSpec (err e) r (ok o) = ⊥
  AncestorSpec (err e) r (err x) = x ≡ e
  AncestorSpec (ok n) (err e) (ok o) = ⊥
  AncestorSpec (ok n) (err e) (err x) = x ≡ e
  AncestorSpec (ok n) (ok m) (ok none) = NoCommon g.node n m
  AncestorSpec (ok n) (ok m) (ok (some s)) =
      (a : V) × ((s ≡ unprefix_node_name env_name (g.node.name a))
        × (From g.node n a × From g.node m a))
  AncestorSpec (ok n) (ok m) (err x) = ⊥

  named :
      (n m : V) (r : Result (Best V))
      → MeetSpec g.node n m r
      → AncestorSpec (ok n) (ok m) (r >>= λ best. ok (ancestor_name g env_name best))
  named n m (err x) h = h
  named n m (ok none) h = h
  named n m (ok (some (a, distance))) h = (a, (refl, h))

  starting : (n : V) → Searching g.node n (side_of n)
  starting n = record {
    done = tt;
    waiting = (Reaches.here (inl refl), tt);
    frontier = tt;
    first = (ground (arith, seen-In g.node.name n (n ∷ []) (inl refl)), tt);
    once = tt;
    passed = tt;
  }

  -- In a finite graph, with fuel for both searches, `nearest_common_ancestor` throws what the lookups of
  -- the nodes throw. Else it ends, with the name of a node that is above both, or is one of them; or
  -- with none, and then there is no such node.
  pub nearest_common_ancestor_lem :
      (alike : Alike g.node) (fuel : ℕ) (us : List V)
      → Finite g g.node.reverse_edges fuel us
      → 2 * (weight g.node.name g.node.reverse_edges [] us + 1) ≤ fuel
      → (node1_name node2_name : Str)
      → AncestorSpec
          (lookup g env_name node1_name)
          (lookup g env_name node2_name)
          (nearest_common_ancestor g fuel env_name node1_name node2_name)
  unfolding nearest_common_ancestor
  nearest_common_ancestor_lem alike fuel us finite enough node1_name node2_name =
      by_lookups (lookup g env_name node1_name) (lookup g env_name node2_name)
        (λ n. lookup-Within g env_name [] us fuel finite node1_name n)
        (λ n. lookup-Within g env_name [] us fuel finite node2_name n)
    where
      by_lookups :
          (r s : Result V)
          → ((n : V) → r ≡ ok n → seen g.node.name n us ≡ true)
          → ((n : V) → s ≡ ok n → seen g.node.name n us ≡ true)
          → AncestorSpec r s (
              r >>= λ n1. s >>= λ n2. meet g.node fuel (side_of n1) (side_of n2) none >>= λ best.
              ok (ancestor_name g env_name best))
      by_lookups (err e) s h k = refl
      by_lookups (ok n) (err e) h k = refl
      by_lookups (ok n) (ok m) h k = named n m (meet g.node fuel (side_of n) (side_of m) none) (
          meet_lem g.node alike.reverse us finite.closed n m fuel (side_of n) (side_of m) none
            (starting n) (starting m) (λ e. ground (arith, not_seen g.node.name e)) (h n refl, tt)
            (k m refl, tt) (omega (arith, enough)))

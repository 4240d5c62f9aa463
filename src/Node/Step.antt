-- ===== src/Node/Step.antt =====
-- `add_edge` and `remove_edge` of a node, with the storage: what the stored record has then.
use rangexx.Base.{
  suc, ◌+◌, ◌^◌, ◌<◌, ◌≡◌, ◌≢◌, refl, sym, ◌∙◌, ap, Bool, true, false, not, Option, none, some,
  List, [], ◌∷◌, ◌||◌, Str, str_eq_refl, elem, elem-append, arith,
}
use mathlib.Core.Path.{subst}
use rangexx.Node.Info.{NodeInfo, Direction, forwards, backwards, edges_of}
use rangexx.Node.EdgeList.{GoodEdges}
use rangexx.Node.Edit.{add_edge_info, remove_edge_info}
use rangexx.Node.Storage.{RecordType, Wire, Storage}
use rangexx.Node.Object.{Node, stamp, modify, add_edge, remove_edge}
use rangexx.Node.Stored.{current, Synced, Accepts, ModifySpec, modify_lem}
use rangexx.Node.Invariant.{GoodInfo, edges_at}
use rangexx.Node.AddEdge.{Added, AddSpec, add_edge_info_lem}
use rangexx.Node.RemoveEdge.{Removed, RemoveSpec, remove_edge_info_lem}
use rangexx.Node.DropEdge.{without}

-- The newest version of the record has an edge with this name.
abbrev pub has_edge : Direction → Str → NodeInfo → Bool
has_edge d other i = elem other (edges_at i.list_version d i)

has_edge-stamp :
    (w : Wire) (s : Storage) (d : Direction) (other : Str) (i : NodeInfo)
    → has_edge d other (stamp w s i) ≡ has_edge d other i
unfolding stamp edges_of
has_edge-stamp w s forwards other i = refl
has_edge-stamp w s backwards other i = refl

Added-has_edge :
    (d : Direction) (other : Str) (i j : NodeInfo) → Added d other i j → has_edge d other j ≡ true
unfolding elem
Added-has_edge d other i j p =
    ap (λ v. elem other (edges_at v d j)) p.follows.version
    ∙ ap (elem other) p.now
    ∙ elem-append other (edges_at i.list_version d i) (other ∷ [])
    ∙ last_true (elem other (edges_at i.list_version d i))
  where
    last_true : (b : Bool) → (b || elem other (other ∷ [])) ≡ true
    last_true true = refl
    last_true false = rw (str_eq_refl other)

elem-without : (t : Str) (ts : List Str) → elem t (without t ts) ≡ false
unfolding elem
elem-without t [] = refl
elem-without t (u ∷ ts) = ground (arith, elem-without t ts)

Removed-has_edge :
    (d : Direction) (other : Str) (i j : NodeInfo)
    → Removed d other i j
    → has_edge d other j ≡ false
Removed-has_edge d other i j p =
    ap (λ v. elem other (edges_at v d j)) p.follows.version
    ∙ ap (elem other) p.now
    ∙ elem-without other (edges_at i.list_version d i)

pub stamp-GoodInfo : (w : Wire) (s : Storage) (i : NodeInfo) → GoodInfo i → GoodInfo (stamp w s i)
unfolding stamp
stamp-GoodInfo w s i g = record { edges = stamped; keys = g.keys }
  where
    stamped : (d : Direction) → GoodEdges (suc i.list_version) (edges_of d (stamp w s i))
    stamped forwards = unfold edges_of in g.edges forwards
    stamped backwards = unfold edges_of in g.edges backwards

-- A call that should make an edge present, or absent, answers whether this changed anything.
abbrev pub differs : Bool → Bool → Bool
differs true before = not before
differs false before = before

module _ (w : Wire) (s : Storage) where
  -- The stored record of `name` has the edge or not, as wanted; no other record is changed.
  pub record Step (wanted : Bool) (d : Direction) (other name : Str) (st : s.State) (n' : Node)
      (st' : s.State) : Type 0 where
    pub now : has_edge d other (current w s st' name) ≡ wanted
    pub good : GoodInfo (current w s st' name)
    pub others :
        (m : Str)
        → m ≢ name
        → s.get_record RecordType.node m st' ≡ s.get_record RecordType.node m st
    pub same_name : n'.name ≡ name
    pub synced : Synced w s st' n'

  abbrev pub StepSpec : Bool → Direction → Str → Str → s.State → Bool × (Node × s.State) → Type 0
  StepSpec wanted d other name st (ok, (n', st')) =
      (ok ≡ differs wanted (has_edge d other (current w s st name)))
      × Step wanted d other name st n' st'

  unchanged :
      (wanted : Bool) (d : Direction) (other name : Str) (st : s.State)
      (r : Bool × (Node × s.State))
      → GoodInfo (current w s st name)
      → has_edge d other (current w s st name) ≡ wanted
      → ModifySpec w s none name st r
      → StepSpec wanted d other name st r
  unchanged wanted d other name st (ok, (n', st')) g h (p, (q, (e, y))) = (
    p ∙ answer wanted ∙ sym (ap (differs wanted) h),
    record {
      now = ap (λ x. has_edge d other (current w s x name)) q ∙ h;
      good = subst (λ x. GoodInfo (current w s x name)) (sym q) g;
      others = λ m n. ap (s.get_record RecordType.node m) q;
      same_name = e;
      synced = subst (λ x. Synced w s x n') (sym q) y;
    },
  )
    where
      answer : (b : Bool) → false ≡ differs b b
      answer true = refl
      answer false = refl

  written :
      (wanted : Bool) (d : Direction) (other name : Str) (i : NodeInfo) (st : s.State)
      (r : Bool × (Node × s.State))
      → GoodInfo i
      → has_edge d other i ≡ wanted
      → has_edge d other (current w s st name) ≡ not wanted
      → ModifySpec w s (some i) name st r
      → StepSpec wanted d other name st r
  written wanted d other name i st (ok, (n', st')) g h before (p, q) = (
    p ∙ answer wanted ∙ sym (ap (differs wanted) before),
    record {
      now = ap (has_edge d other) q.stored ∙ has_edge-stamp w s d other i ∙ h;
      good = subst GoodInfo (sym q.stored) (stamp-GoodInfo w s i g);
      others = q.others;
      same_name = q.same_name;
      synced = q.synced;
    },
  )
    where
      answer : (b : Bool) → true ≡ differs b (not b)
      answer true = refl
      answer false = refl

  -- What a call on one of the two nodes does.
  abbrev pub Works : Bool → (Direction → Str → Node → s.State → Bool × (Node × s.State)) → Type 0
  Works wanted op =
      (d : Direction) (other : Str) (n : Node) (st : s.State)
      → Synced w s st n
      → GoodInfo (current w s st n.name)
      → (current w s st n.name).list_version + 1 < 2 ^ 64
      → StepSpec wanted d other n.name st (op d other n st)

  module _ (acc : Accepts w s) where
    add_edge_result :
        (d : Direction) (other name : Str) (st : s.State) (o : Option NodeInfo)
        (r : Bool × (Node × s.State))
        → GoodInfo (current w s st name)
        → AddSpec d other (current w s st name) o
        → ModifySpec w s o name st r
        → StepSpec true d other name st r
    add_edge_result d other name st none r g a p = unchanged true d other name st r g a p
    add_edge_result d other name st (some i) r g a p =
        written true d other name i st r a.follows.good
          (Added-has_edge d other (current w s st name) i a) a.fresh p

    pub add_edge-Works : Works true (add_edge w s)
    unfolding add_edge
    add_edge-Works d other n st p g h =
        add_edge_result d other n.name st (add_edge_info d other (current w s st n.name))
          (modify w s (add_edge_info d other) n st) g
          (add_edge_info_lem d other (current w s st n.name) g h)
          (modify_lem w s acc (add_edge_info d other) n st p)

    remove_edge_result :
        (d : Direction) (other name : Str) (st : s.State) (o : Option NodeInfo)
        (r : Bool × (Node × s.State))
        → GoodInfo (current w s st name)
        → RemoveSpec d other (current w s st name) o
        → ModifySpec w s o name st r
        → StepSpec false d other name st r
    remove_edge_result d other name st none r g a p = unchanged false d other name st r g a p
    remove_edge_result d other name st (some i) r g a p =
        written false d other name i st r a.follows.good
          (Removed-has_edge d other (current w s st name) i a) a.there p

    pub remove_edge-Works : Works false (remove_edge w s)
    unfolding remove_edge
    remove_edge-Works d other n st p g h =
        remove_edge_result d other n.name st (remove_edge_info d other (current w s st n.name))
          (modify w s (remove_edge_info d other) n st) g
          (remove_edge_info_lem d other (current w s st n.name) g h)
          (modify_lem w s acc (remove_edge_info d other) n st p)

-- ===== src/Node/Pairs.antt =====
-- `add_forward_edge` and `remove_forward_edge` with the other node's edge back, and their mirror
-- images: two objects on one storage.
use rangexx.Base.{
  ◌+◌, ◌^◌, ◌<◌, ◌≡◌, ◌≢◌, refl, sym, ◌∙◌, ap, Bool, true, false, ◌&&◌, Str, if◌then◌else◌,
}
use mathlib.Core.Path.{subst}
use rangexx.Node.Info.{Direction, opposite}
use rangexx.Node.Storage.{RecordType, Wire, Storage}
use rangexx.Node.Object.{Node, add_edge, remove_edge, link, unlink}
use rangexx.Node.Stored.{current, Synced, Accepts, Synced-same, current-same}
use rangexx.Node.Invariant.{GoodInfo}
use rangexx.Node.Step.{has_edge, differs, StepSpec, Works, add_edge-Works, remove_edge-Works}

module _ (w : Wire) (s : Storage) where
  -- Two nodes, their objects in step with the storage and their records well formed; each record has
  -- the edge to the other node or neither has.
  pub record Paired (d : Direction) (a b : Node) (st : s.State) : Type 0 where
    pub apart : a.name ≢ b.name
    pub synced : Synced w s st a × Synced w s st b
    pub good : GoodInfo (current w s st a.name) × GoodInfo (current w s st b.name)
    pub mirrored :
        has_edge d b.name (current w s st a.name)
        ≡ has_edge (opposite d) a.name (current w s st b.name)

  -- The first node had the edge or not, as the answer says; both have it now, or neither, as wanted,
  -- and no record of another node is changed.
  pub record Joined (wanted : Bool) (d : Direction) (a b : Node) (st : s.State) (ok : Bool)
      (a' b' : Node) (st' : s.State) : Type 0 where
    pub answer : ok ≡ differs wanted (has_edge d b.name (current w s st a.name))
    pub names : (a'.name ≡ a.name) × (b'.name ≡ b.name)
    pub paired : Paired d a' b' st'
    pub now : has_edge d b'.name (current w s st' a'.name) ≡ wanted
    pub others :
        (m : Str)
        → m ≢ a.name
        → m ≢ b.name
        → s.get_record RecordType.node m st' ≡ s.get_record RecordType.node m st

  abbrev pub JoinSpec :
      Bool → Direction → Node → Node → s.State → Bool × (Node × (Node × s.State)) → Type 0
  JoinSpec wanted d a b st (ok, (a', (b', st'))) = Joined wanted d a b st ok a' b' st'

  -- `link` and `unlink` with the edge back are this, for their call on one node.
  abbrev both :
      (Direction → Str → Node → s.State → Bool × (Node × s.State))
      → Direction
      → Node
      → Node
      → s.State
      → Bool × (Node × (Node × s.State))
  both op d a b st =
      let (ok, (a', st')) = op d b.name a st in
      if ok && true
      then (let (_, (b', st'')) = op (opposite d) a.name b st' in (true, (a', (b', st''))))
      else (ok, (a', (b, st')))

  abbrev other_done : Node → Bool × (Node × s.State) → Bool × (Node × (Node × s.State))
  other_done a' (_, (b', st'')) = (true, (a', (b', st'')))

  module _ (wanted : Bool) (op : Direction → Str → Node → s.State → Bool × (Node × s.State))
      (works : Works w s wanted op) (d : Direction) (a b : Node) (st : s.State)
      (p : Paired d a b st) (room_a : (current w s st a.name).list_version + 1 < 2 ^ 64)
      (room_b : (current w s st b.name).list_version + 1 < 2 ^ 64) where
    joined :
        (ok : Bool) (a' b' : Node) (st' : s.State)
        → ok ≡ differs wanted (has_edge d b.name (current w s st a.name))
        → (a'.name ≡ a.name) × (b'.name ≡ b.name)
        → Synced w s st' a' × Synced w s st' b'
        → GoodInfo (current w s st' a.name) × GoodInfo (current w s st' b.name)
        → has_edge d b.name (current w s st' a.name) ≡ wanted
        → has_edge (opposite d) a.name (current w s st' b.name) ≡ wanted
        → ((m : Str)
            → m ≢ a.name
            → m ≢ b.name
            → s.get_record RecordType.node m st' ≡ s.get_record RecordType.node m st)
        → Joined wanted d a b st ok a' b' st'
    joined ok a' b' st' answer names synced good now back others = record {
      answer = answer;
      names = names;
      paired = record {
        apart = λ e. p.apart (sym names.0 ∙ e ∙ names.1);
        synced = synced;
        good = (rw names.0 good.0, rw names.1 good.1);
        mirrored = rw (names.0, names.1) (now ∙ sym back);
      };
      now = rw (names.0, names.1) now;
      others = others;
    }

    -- The first call changed nothing, so that each record has the edge already, or neither has.
    as_before :
        (a' : Node) (st' : s.State)
        → StepSpec w s wanted d b.name a.name st (false, (a', st'))
        → JoinSpec wanted d a b st (false, (a', (b, st')))
    as_before a' st' (answer, t) =
        let same = t.others b.name (λ e. p.apart (sym e)) in
        let c = current-same w s st st' b.name same in
        joined false a' b st' answer (t.same_name, refl)
          (t.synced, Synced-same w s st st' b same p.synced.1)
          (t.good, subst GoodInfo (sym c) p.good.1) t.now
          (ap (has_edge (opposite d) a.name) c
            ∙ sym p.mirrored
            ∙ was wanted (has_edge d b.name (current w s st a.name)) answer)
          (λ m n k. t.others m n)
      where
        was : (x h : Bool) → false ≡ differs x h → h ≡ x
        was true true e = refl
        was true false e = e
        was false h e = sym e

    second :
        (a' : Node) (st' : s.State) (r : Bool × (Node × s.State))
        → StepSpec w s wanted d b.name a.name st (true, (a', st'))
        → StepSpec w s wanted (opposite d) a.name b.name st' r
        → JoinSpec wanted d a b st (other_done a' r)
    second a' st' (ok, (b', st'')) (answer, t) (q, u) =
        let same = u.others a.name p.apart in
        let c = current-same w s st' st'' a.name same in
        joined true a' b' st'' answer (t.same_name, u.same_name)
          (Synced-same w s st' st'' a' (rw t.same_name same) t.synced, u.synced)
          (subst GoodInfo (sym c) t.good, u.good) (ap (has_edge d b.name) c ∙ t.now) u.now
          (λ m n k. u.others m k ∙ t.others m n)

    finish :
        (r : Bool × (Node × s.State))
        → StepSpec w s wanted d b.name a.name st r
        → JoinSpec wanted d a b st (
            if r.0 && true
            then other_done r.1.0 (op (opposite d) a.name b r.1.1)
            else (r.0, (r.1.0, (b, r.1.1))))
    finish (false, (a', st')) t = as_before a' st' t
    finish (true, (a', st')) (answer, t) =
        let same = t.others b.name (λ e. p.apart (sym e)) in
        let c = current-same w s st st' b.name same in
        second a' st' (op (opposite d) a.name b st') (answer, t)
          (works (opposite d) a.name b st' (Synced-same w s st st' b same p.synced.1)
            (subst GoodInfo (sym c) p.good.1) (rw c room_b))

    both_lem : JoinSpec wanted d a b st (both op d a b st)
    both_lem = finish (op d b.name a st) (works d b.name a st p.synced.0 p.good.0 room_a)

  module _ (acc : Accepts w s) (d : Direction) (a b : Node) (st : s.State) (p : Paired d a b st)
      (room_a : (current w s st a.name).list_version + 1 < 2 ^ 64)
      (room_b : (current w s st b.name).list_version + 1 < 2 ^ 64) where
    -- For two nodes of different names whose records mirror each other, on a storage that takes every
    -- record and with a version left: adding the edge with the one back answers whether it was
    -- missing, and then both records have it, mirror each other and are well formed; the objects are
    -- in step with the storage, and no record of another node is changed.
    pub link_lem : JoinSpec true d a b st (link w s d true a b st)
    unfolding link
    link_lem = both_lem true (add_edge w s) (add_edge-Works w s acc) d a b st p room_a room_b

    -- For two nodes of different names whose records mirror each other, on a storage that takes every
    -- record and with a version left: removing the edge with the one back answers whether it was
    -- there, and then neither record has it, they mirror each other and are well formed; the objects
    -- are in step with the storage, and no record of another node is changed.
    pub unlink_lem : JoinSpec false d a b st (unlink w s d true a b st)
    unfolding unlink
    unlink_lem =
        both_lem false (remove_edge w s) (remove_edge-Works w s acc) d a b st p room_a room_b

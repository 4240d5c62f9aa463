-- ===== src/Api/Roots.antt =====
-- The loop of `environment_topological_sort` over all roots.
use rangexx.Base.{
  ℕ, ◌+◌, ◌*◌, ◌≤◌, ◌≡◌, refl, ap, ◌∙◌, ◌⊎◌, inl, inr, true, Option, none, some, List, [], ◌∷◌,
  arith, Bool-cases, str_eq_iff, zero, suc,
}
use mathlib.Core.Option.{some-injective, none-ne-some}
use rangexx.Base.Results.{Result, ok, err, null_pointer, graph_cycle, ◌>>=◌}
use rangexx.Search.Loop.{depth, push_all, seen}
use rangexx.Search.Ends.{weight, weight-seen, length-push_all, IsClosed, IsNamed, Within}
use rangexx.Search.Reach.{In, seen_first}
use rangexx.Search.Explored.{not_seen}
use rangexx.Search.More.{weight_whole}
use rangexx.Graph.Interface.{NodeIface}
use rangexx.Api.Found.{Alike}
use rangexx.Api.Sort.{Marks, out_edges, frame, sort_from, sort_all}
use rangexx.Api.Frames.{Placed}
use rangexx.Search.Reach.{seen_same}
use rangexx.Api.Taken.{first_frame}
use rangexx.Api.Sorted.{Cycle, SortedFrom, FromSpec, from_lem}

module _ {W : Type 0} (node : NodeIface W) where
  pub IsNamed-out_edges : Alike node → IsNamed node.name (out_edges node)
  unfolding out_edges
  IsNamed-out_edges alike u v e = rw (alike.type u v e) (rw (alike.forward u v e) refl)

  module _ (same : IsNamed node.name (out_edges node)) (us : List W)
      (closed : IsClosed node.name (out_edges node) us) (roots : List W) (fuel : ℕ)
      (enough : 2 * weight node.name (out_edges node) [] us + 1 ≤ fuel) where
    abbrev begun : Marks W → W → Marks W
    begun m root = record { visited = m.visited; visiting = root ∷ m.visiting }

    old_root :
        (root : W) (m : Marks W) (left : ℕ)
        → 1 ≤ left
        → seen node.name root m.visited ≡ true
        → sort_from node root left (begun m root) [] (frame node root ∷ []) ≡ ok (begun m root)
    unfolding sort_from frame
    old_root root m zero h old = absurd (ground (arith, h))
    old_root root m (suc left) h old = ground (arith, old)

    -- The loop for one root, whether it was visited before or not.
    root_lem :
        (root : W) (m : Marks W)
        → Placed node roots m
        → ((e : W) → seen node.name e m.visiting ≡ true → seen node.name e m.visited ≡ true)
        → In root roots
        → Within node.name (out_edges node) us root
        → FromSpec node roots root
            (begun m root)
            (sort_from node root fuel (begun m root) [] (frame node root ∷ []))
    root_lem root m placed known i w = elim (Bool-cases (seen node.name root m.visited)) [
      | inl old ↦ rw (old_root root m fuel (omega (arith, enough)) old) (record {
        placed = record { ordered = placed.ordered; once = placed.once; sound = placed.sound };
        settled = λ e k. ground (
          arith,
          k,
          known e,
          old,
          seen_first node.name e root m.visiting,
          str_eq_iff (node.name e) (node.name root),
          seen_same node.name e root m.visited,
        );
        listed = old;
        grown = λ e k. k;
      })
      | inr new ↦
          (unfold frame in
            from_lem node same us closed roots root fuel (root ∷ m.visited) (begun m root) [] root
              (push_all depth (out_edges node root) []) []
              (first_frame node roots root m placed known new i)
              (λ e. ground (
                arith,
                seen_first node.name e root m.visited,
                seen_first node.name e root [],
                not_seen node.name e,
              ))
              (w, tt)
              (omega (
                arith,
                enough,
                weight-seen node.name (out_edges node) same m.visited us root new w,
                weight_whole node.name (out_edges node) same m.visited us,
                length-push_all {0} depth (out_edges node root) [],
              )))
    ]

    -- All roots were found, and are listed; else one was not found, or there is a cycle.
    abbrev pub AllSpec : List (Option W) → Marks W → Result (Marks W) → Type 0
    AllSpec os before (ok m) =
        Placed node roots m
        × (((n : W) → In (some n) os → seen node.name n m.visited ≡ true)
            × (((e : W)
                  → seen node.name e before.visited ≡ true
                  → seen node.name e m.visited ≡ true)
                × (In none os → ⊥)))
    AllSpec os before (err x) =
        ((x.kind ≡ null_pointer) × In none os) ⊎ ((x.kind ≡ graph_cycle) × Cycle node roots)

    abbrev Rooted : List (Option W) → Type 0
    Rooted os = (n : W) → In (some n) os → In n roots × Within node.name (out_edges node) us n

    pub sort_all_lem :
        (os : List (Option W)) (m : Marks W)
        → Placed node roots m
        → ((e : W) → seen node.name e m.visiting ≡ true → seen node.name e m.visited ≡ true)
        → Rooted os
        → AllSpec os m (sort_all node fuel os m)
    unfolding sort_all
    sort_all_lem [] m placed known h = (placed, (λ n i. absurd i, (λ e k. k, λ i. i)))
    sort_all_lem (none ∷ os) m placed known h = inl (refl, inl refl)
    sort_all_lem (some n ∷ os) m placed known h =
        after
          (sort_from node n fuel (record { visited = m.visited; visiting = n ∷ m.visiting }) []
            (frame node n ∷ []))
          (root_lem n m placed known (h n (inl refl)).0 (h n (inl refl)).1)
          (λ k p. sort_all_lem os k p.placed p.settled (λ j i. h j (inr i)))
      where
        more :
            (k : Marks W) (r : Result (Marks W))
            → SortedFrom node roots n (record { visited = m.visited; visiting = n ∷ m.visiting }) k
            → AllSpec os k r
            → AllSpec (some n ∷ os) m r
        more k (err x) p (inl (q, i)) = inl (q, inr i)
        more k (err x) p (inr q) = inr q
        more k (ok z) p q = (
          q.0,
          (
            λ j i. elim i [
              | inl e ↦
                  seen_same node.name j n z.visited (ap node.name (some-injective j n e))
                  ∙ q.1.1.0 n p.listed
              | inr e ↦ q.1.0 j e
            ],
            (
              λ e i. q.1.1.0 e (p.grown e i),
              λ i. elim i [ inl e ↦ absurd (none-ne-some n e) | inr e ↦ q.1.1.1 e ],
            ),
          ),
        )

        after :
            (r : Result (Marks W))
            → FromSpec node roots n (begun m n) r
            → ((k : Marks W)
                → SortedFrom node roots n (begun m n) k
                → AllSpec os k (sort_all node fuel os k))
            → AllSpec (some n ∷ os) m (r >>= sort_all node fuel os)
        after (err x) p on = inr p
        after (ok k) p on = more k (sort_all node fuel os k) p (on k p)

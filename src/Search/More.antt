-- ===== src/Search/More.antt =====
-- A search that goes on from what was visited before.
use rangexx.Base.{
  ℕ, ◌+◌, ◌≤◌, ◌≡◌, refl, inl, inr, Bool, true, List, [], ◌∷◌, Str, str_eq, str_eq_iff, elem, All,
  arith, Bool-cases,
}
use rangexx.Search.Loop.{Strategy, seen, search}
use rangexx.Search.Ends.{weight, IsClosed, IsNamed, Within, search_ends}
use rangexx.Search.Reach.{In, All-In, All-map, seen-In, Reaches, Known, Sound}
use rangexx.Search.Explored.{Explored, SearchSpec, search-Sound}

-- A name that is seen is that of a node of the list.
pub seen-found :
    {V : Type 0} (name : V → Str) (v : V) (us : List V)
    → seen name v us ≡ true
    → (u : V) × (In u us × (name v ≡ name u))
unfolding seen elem
seen-found name v [] h = absurd (ground (arith, h))
seen-found name v (u ∷ us) h = elim (Bool-cases (str_eq (name v) (name u))) [
  | inl e ↦ (u, (inl refl, (str_eq_iff (name v) (name u)).0 e))
  | inr e ↦ let (w, (i, same)) = seen-found name v us (ground (arith, h, e)) in (w, (inr i, same))
]

module _ {V : Type 0} (name : V → Str) (edges : V → List V) where
  pub Reaches-more :
      (starts more : List V) (v : V)
      → ((n : V) → In n starts → In n more)
      → Reaches name edges starts v
      → Reaches name edges more v
  Reaches-more starts more v h (Reaches.here i) = Reaches.here (h v i)
  Reaches-more starts more v h (Reaches.next {u} r i) =
      Reaches.next (Reaches-more starts more u h r) i

  pub Reaches-one :
      (starts : List V) (v : V)
      → Reaches name edges starts v
      → (n : V) × (In n starts × Reaches name edges (n ∷ []) v)
  Reaches-one starts v (Reaches.here i) = (v, (i, Reaches.here (inl refl)))
  Reaches-one starts v (Reaches.next {u} r i) =
      let (n, (j, q)) = Reaches-one starts u r in (n, (j, Reaches.next q i))

  -- What was visited before is left as it is; what can be reached from the new node is added.
  pub search_more :
      (same : IsNamed name edges) (us : List V)
      → IsClosed name edges us
      → (s : Strategy) (stop : V → Bool) (fuel : ℕ) (starts visited : List V) (n : V)
      → Explored name edges stop starts visited
      → Within name edges us n
      → weight name edges visited us + 1 ≤ fuel
      → SearchSpec name edges stop (n ∷ starts) (search name edges s stop fuel visited (n ∷ []))
  search_more same us closed s stop fuel starts visited n p h k =
      search-Sound name edges same s stop (n ∷ starts) fuel visited (n ∷ []) begin (
        search_ends name edges same us closed s stop fuel visited (n ∷ []) (h, tt)
          (omega (arith, k)))
    where
      known : (e : V) → Reaches name edges starts e → Known name edges visited (n ∷ []) e
      known e r = ground (arith, p.complete e r)

      begin : Sound name edges stop (n ∷ starts) visited (n ∷ [])
      begin = record {
        done =
            All-map (Reaches name edges starts) (Reaches name edges (n ∷ starts)) visited
              (λ v. Reaches-more starts (n ∷ starts) v (λ m i. inr i)) p.sound;
        waiting = (Reaches.here (inl refl), tt);
        frontier =
            All-map (Reaches name edges starts)
              (λ u. All (Known name edges visited (n ∷ [])) (edges u)) visited
              (λ u r.
                All-In (Known name edges visited (n ∷ [])) (edges u)
                  λ e i. known e (Reaches.next r i))
              p.sound;
        first = (
          ground (arith, seen-In name n (n ∷ []) (inl refl)),
          All-In (Known name edges visited (n ∷ [])) starts (λ e i. known e (Reaches.here i)),
        );
        once = p.once;
        passed = p.passed;
      }

  -- A search that never stops, with fuel for the whole graph.
  pub weight_whole :
      (same : IsNamed name edges) (visited us : List V)
      → weight name edges visited us ≤ weight name edges [] us
  unfolding weight seen elem
  weight_whole same visited [] = omega arith
  weight_whole same visited (u ∷ us) = ground (arith, weight_whole same visited us)

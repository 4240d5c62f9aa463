-- ===== src/Search/Ends.antt =====
-- A search in a finite graph ends.
use rangexx.Base.{
  ℕ, zero, suc, ◌+◌, ◌≤◌, ◌≡◌, sym, ap, ◌≢◌, ◌∙◌, inl, inr, Bool, true, false, List, [], ◌∷◌, map,
  Str, str_eq, str_eq_iff, elem, All, All-append, if◌then◌else◌, arith, length, length-append,
  Bool-cases,
}
use rangexx.Search.Loop.{Strategy, breadth, depth, out_of_fuel, push_all, seen, search}

pub length-push_all {ℓ} :
    {V : Type ℓ} (s : Strategy) (es rest : List V)
    → length (push_all s es rest) ≡ length es + length rest
unfolding push_all
length-push_all breadth es rest = omega (arith, length-append rest es)
length-push_all depth [] rest = omega arith
length-push_all depth (e ∷ es) rest = omega (arith, length-push_all depth es (e ∷ rest))

pub All-push_all {ℓ κ} :
    {V : Type ℓ} (P : V → Type κ) (s : Strategy) (es rest : List V)
    → All P es
    → All P rest
    → All P (push_all s es rest)
unfolding push_all
All-push_all P breadth es rest h k = All-append P rest es k h
All-push_all P depth [] rest h k = k
All-push_all P depth (e ∷ es) rest h k = All-push_all P depth es (e ∷ rest) h.1 (h.0, k)

module _ {V : Type 0} (name : V → Str) (edges : V → List V) where
  -- The edges of the nodes that are not visited yet.
  unfoldable pub weight : List V → List V → ℕ
  unfolding seen
  weight visited [] = 0
  weight visited (u ∷ us) =
      let rest = weight visited us in if seen name u visited then rest else length (edges u) + rest

  abbrev pub Within : List V → V → Type 0
  Within us v = seen name v us ≡ true

  -- Every edge of one of the nodes leads to one of them, by name.
  abbrev pub IsClosed : List V → Type 0
  IsClosed us = All (λ u. All (Within us) (edges u)) us

  -- Objects of one name have the same edges.
  abbrev pub IsNamed : Type 0
  IsNamed = (u v : V) → name u ≡ name v → edges u ≡ edges v

  weight-less :
      (same : IsNamed) (visited us : List V) (v : V)
      → seen name v visited ≡ false
      → weight (v ∷ visited) us ≤ weight visited us
  unfolding weight seen elem
  weight-less same visited [] v h = omega arith
  weight-less same visited (u ∷ us) v h = ground (arith, weight-less same visited us v h)

  pub weight-seen :
      (same : IsNamed) (visited us : List V) (v : V)
      → seen name v visited ≡ false
      → Within us v
      → weight (v ∷ visited) us + length (edges v) ≤ weight visited us
  unfolding weight seen elem
  weight-seen same visited [] v h k = ground (arith, k)
  weight-seen same visited (u ∷ us) v h k = elim (Bool-cases (str_eq (name v) (name u))) [
    | inl e ↦
        let equal : name v ≡ name u = (str_eq_iff (name v) (name u)).0 e in
        let unseen : seen name u visited ≡ false =
          ap (λ (n : Str). elem n (map name visited)) (sym equal) ∙ h in
        ground (
          arith,
          str_eq_iff (name u) (name v),
          sym equal,
          unseen,
          ap (λ (es : List V). length es) (same v u equal),
          weight-less same visited us v h,
        )
    | inr e ↦ ground (
      arith,
      str_eq_iff (name u) (name v),
      str_eq_iff (name v) (name u),
      weight-seen same visited us v h (ground (arith, k, e)),
    )
  ]

  -- What holds at all edges of the listed nodes holds at those of a node that has a listed name.
  pub All-edges {κ} :
      (P : V → Type κ) (same : IsNamed) (us : List V) (v : V)
      → All (λ u. All P (edges u)) us
      → seen name v us ≡ true
      → All P (edges v)
  unfolding seen elem
  All-edges P same [] v h k = absurd (ground (arith, k))
  All-edges P same (u ∷ us) v h k = elim (Bool-cases (str_eq (name v) (name u))) [
    | inl e ↦ rw (same v u ((str_eq_iff (name v) (name u)).0 e)) h.0
    | inr e ↦ All-edges P same us v h.1 (ground (arith, k, e))
  ]

  -- Enough fuel: the nodes that wait, and the edges of those that are not visited.
  pub search_ends :
      (same : IsNamed) (us : List V)
      → IsClosed us
      → (s : Strategy) (stop : V → Bool) (fuel : ℕ) (visited queue : List V) → All (Within us) queue
      → weight visited us + length queue ≤ fuel
      → search name edges s stop fuel visited queue ≢ out_of_fuel
  unfolding search
  search_ends same us closed s stop fuel visited [] h k e = ground (arith, e)
  search_ends same us closed s stop zero visited (v ∷ rest) h k e = ground (arith, k)
  search_ends same us closed s stop (suc fuel) visited (v ∷ rest) h k e =
      elim (Bool-cases (seen name v visited)) [
        | inl old ↦
            search_ends same us closed s stop fuel visited rest h.1 (omega (arith, k))
              (ground (arith, e, old))
        | inr new ↦ elim (Bool-cases (stop v)) [
          | inl halt ↦ ground (arith, e, new, halt)
          | inr on ↦
              search_ends same us closed s stop fuel (v ∷ visited) (push_all s (edges v) rest)
                (All-push_all (Within us) s (edges v) rest
                  (All-edges (Within us) same us v closed h.0) h.1)
                (omega (
                  arith,
                  k,
                  weight-seen same visited us v new h.0,
                  length-push_all {0} s (edges v) rest,
                ))
                (ground (arith, e, new, on))
        ]
      ]

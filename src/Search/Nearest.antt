-- ===== src/Search/Nearest.antt =====
-- A breadth-first search stops at a node that is as near as any.
use mathlib.Core.List.{append-nil, append_assoc}
use mathlib.Core.Path.{subst}
use native.Mathlib.Decide.{dec_lt}
use rangexx.Base.{
  ℕ, zero, suc, ◌≤◌, ◌<◌, ◌≡◌, refl, sym, ap, ◌∙◌, inl, inr, Bool, true, false, ◌||◌, List, [], ◌∷◌,
  ◌++◌, Str, All, All-append, arith, Bool-cases,
}
use rangexx.Search.Loop.{breadth, Outcome, ended, stopped, out_of_fuel, push_all, seen, search}
use rangexx.Search.Ends.{IsNamed, All-edges}
use rangexx.Search.Reach.{
  In, All-In, All-map, All-at, seen-In, seen_first, Known, Known-old, Known-new, Known-edges,
}
use rangexx.Search.Explored.{not_seen, search-seen, search_on, search_halt}
use rangexx.Search.More.{seen-found}

stopped_eq : {V : Type 0} {u v : V} {us vs : List V} → stopped u us ≡ stopped v vs → u ≡ v
stopped_eq h = cc

ended_not_stopped : {V : Type 0} {v : V} {us vs : List V} → ended us ≡ stopped v vs → ⊥
ended_not_stopped h = cc

fuel_not_stopped :
    {V : Type 0} {v : V} {vs : List V} → ◌≡◌ {A = Outcome V} out_of_fuel (stopped v vs) → ⊥
fuel_not_stopped h = cc

module _ {V : Type 0} (name : V → Str) (edges : V → List V) where
  -- A path of this many edges from one of the first nodes.
  pub data Walk (starts : List V) : ℕ → V → Type 0 where
    start : {v : V} → In v starts → Walk starts zero v
    step : {n : ℕ} {u v : V} → Walk starts n u → In v (edges u) → Walk starts (suc n) v

  -- Between two rounds: the queue has nodes at the distance `d`, and behind them those that follow.
  record Layer (stop : V → Bool) (starts : List V) (d : ℕ) (visited front back : List V)
      : Type 0 where
    pub near : All (Walk starts d) front
    pub far : All (Walk starts (suc d)) back
    pub earlier : (m : ℕ) (u : V) → m < d → Walk starts m u → seen name u visited ≡ true
    pub level : (u : V) → Walk starts d u → (seen name u visited || seen name u front) ≡ true
    pub frontier : All (λ u. All (Known name edges visited (front ++ back)) (edges u)) visited
    pub passed : All (λ v. stop v ≡ false) visited

  -- Nodes of one name stop a search alike.
  abbrev pub IsFair : (V → Bool) → Type 0
  IsFair stop = (u v : V) → name u ≡ name v → stop u ≡ stop v

  abbrev pub Nearest : (V → Bool) → List V → V → Type 0
  Nearest stop starts v =
      (n : ℕ) × (Walk starts n v × ((m : ℕ) (u : V) → Walk starts m u → stop u ≡ true → n ≤ m))

  Layer-seen :
      (stop : V → Bool) (starts : List V) (d : ℕ) (visited rest back : List V) (v : V)
      → seen name v visited ≡ true
      → Layer stop starts d visited (v ∷ rest) back
      → Layer stop starts d visited rest back
  Layer-seen stop starts d visited rest back v h p = record {
    near = p.near.1;
    far = p.far;
    earlier = p.earlier;
    level = λ u r. Known-old name edges visited rest v u h (p.level u r);
    frontier =
        All-map (λ u. All (Known name edges visited (v ∷ rest ++ back)) (edges u))
          (λ u. All (Known name edges visited (rest ++ back)) (edges u)) visited
          (λ u.
            All-map (Known name edges visited (v ∷ rest ++ back))
              (Known name edges visited (rest ++ back)) (edges u)
              λ e. Known-old name edges visited (rest ++ back) v e h)
          p.frontier;
    passed = p.passed;
  }

  queue_eq : (es rest back : List V) → push_all breadth es (rest ++ back) ≡ rest ++ (back ++ es)
  unfolding push_all
  queue_eq es rest back = append_assoc rest back es

  Layer-new :
      (stop : V → Bool) (starts : List V) (d : ℕ) (visited rest back : List V) (v : V)
      → stop v ≡ false
      → Layer stop starts d visited (v ∷ rest) back
      → Layer stop starts d (v ∷ visited) rest (back ++ edges v)
  Layer-new stop starts d visited rest back v h p = record {
    near = p.near.1;
    far =
        All-append (Walk starts (suc d)) back (edges v) p.far
          (All-In (Walk starts (suc d)) (edges v) (λ e i. Walk.step p.near.0 i));
    earlier = λ m u l r. ground (arith, seen_first name u v visited, p.earlier m u l r);
    level =
        λ u r. ground (arith, seen_first name u v visited, seen_first name u v rest, p.level u r);
    frontier =
        subst
          (λ (queue : List V).
            All (λ u. All (Known name edges (v ∷ visited) queue) (edges u)) (v ∷ visited))
          (queue_eq (edges v) rest back)
          (
            Known-edges name edges breadth visited (rest ++ back) v,
            All-map (λ u. All (Known name edges visited (v ∷ rest ++ back)) (edges u))
                (λ u.
                  All (Known name edges (v ∷ visited) (push_all breadth (edges v) (rest ++ back)))
                    (edges u))
                visited
                (λ u.
                  All-map (Known name edges visited (v ∷ rest ++ back))
                    (Known name edges (v ∷ visited) (push_all breadth (edges v) (rest ++ back)))
                    (edges u) λ e. Known-new name edges breadth visited (rest ++ back) v e)
                p.frontier,
          );
    passed = (h, p.passed);
  }

  Layer-stop :
      (stop : V → Bool) (fair : IsFair stop) (starts : List V) (d : ℕ) (visited rest back : List V)
      (v : V)
      → Layer stop starts d visited (v ∷ rest) back
      → Nearest stop starts v
  Layer-stop stop fair starts d visited rest back v p = (d, (p.near.0, as_near))
    where
      not_earlier : (m : ℕ) (u : V) → m < d → Walk starts m u → stop u ≡ true → ⊥
      not_earlier m u l r h =
          let (w, (i, same)) = seen-found name u visited (p.earlier m u l r) in
          let passed : stop w ≡ false = All-at (λ x. stop x ≡ false) visited w p.passed i in
          ground (arith, h, passed, fair u w same)

      as_near : (m : ℕ) (u : V) → Walk starts m u → stop u ≡ true → d ≤ m
      as_near m u r h = elim (dec_lt m d) [
        | yes l ↦ absurd (not_earlier m u l r h)
        | no l ↦ omega (arith, l)
      ]

  Walk-last :
      (starts : List V) (n : ℕ) (v : V)
      → Walk starts (suc n) v
      → (u : V) × (Walk starts n u × In v (edges u))
  Walk-last starts n v (Walk.step {u} r i) = (u, (r, i))

  Layer-next :
      (same : IsNamed name edges) (stop : V → Bool) (starts : List V) (d : ℕ)
      (visited back : List V)
      → Layer stop starts d visited [] back
      → Layer stop starts (suc d) visited back []
  Layer-next same stop starts d visited back p = record {
    near = p.far;
    far = tt;
    earlier = earlier;
    level = level;
    frontier =
        subst
          (λ (queue : List V). All (λ u. All (Known name edges visited queue) (edges u)) visited)
          (sym (append-nil back)) p.frontier;
    passed = p.passed;
  }
    where
      visited_level : (u : V) → Walk starts d u → seen name u visited ≡ true
      visited_level u r = ground (arith, p.level u r, not_seen name u)

      earlier : (m : ℕ) (u : V) → m < suc d → Walk starts m u → seen name u visited ≡ true
      earlier m u l r = elim (dec_lt m d) [
        | yes k ↦ p.earlier m u k r
        | no k ↦
            let e : m ≡ d = omega (arith, l, k) in
            visited_level u (subst (λ (n : ℕ). Walk starts n u) e r)
      ]

      level : (u : V) → Walk starts (suc d) u → (seen name u visited || seen name u back) ≡ true
      level u r =
          let (w, (q, i)) = Walk-last starts d u r in
          All-at (Known name edges visited back) (edges w) u
            (All-edges name edges (Known name edges visited back) same visited w p.frontier
              (visited_level w q))
            i

  -- One round, given what holds of the rounds that follow.
  round :
      (stop : V → Bool) (fair : IsFair stop) (starts : List V) (fuel : ℕ)
      → ((d : ℕ) (visited front back : List V) (x : V) (seen_at_end : List V)
          → Layer stop starts d visited front back
          → search name edges breadth stop fuel visited (front ++ back) ≡ stopped x seen_at_end
          → Nearest stop starts x)
      → (d : ℕ) (visited rest back : List V) (v x : V) (seen_at_end : List V)
      → Layer stop starts d visited (v ∷ rest) back
      → search name edges breadth stop (suc fuel) visited (v ∷ rest ++ back) ≡ stopped x seen_at_end
      → Nearest stop starts x
  round stop fair starts fuel ih d visited rest back v x all p h =
      elim (Bool-cases (seen name v visited)) [
        | inl old ↦
            ih d visited rest back x all (Layer-seen stop starts d visited rest back v old p)
              (sym (search-seen name edges breadth stop fuel visited (rest ++ back) v old) ∙ h)
        | inr new ↦ elim (Bool-cases (stop v)) [
          | inl halt ↦
              let e : v ≡ x = stopped_eq (
                sym (search_halt name edges breadth stop fuel visited (rest ++ back) v new halt)
                ∙ h) in
              subst (Nearest stop starts) e (Layer-stop stop fair starts d visited rest back v p)
          | inr go_on ↦
              ih d (v ∷ visited) rest (back ++ edges v) x all
                (Layer-new stop starts d visited rest back v go_on p)
                (ap (search name edges breadth stop fuel (v ∷ visited))
                    (sym (queue_eq (edges v) rest back))
                  ∙ sym (search_on name edges breadth stop fuel visited (rest ++ back) v new go_on)
                  ∙ h)
        ]
      ]

  search_empty :
      (stop : V → Bool) (fuel : ℕ) (visited : List V)
      → search name edges breadth stop fuel visited [] ≡ ended visited
  unfolding search
  search_empty stop fuel visited = refl

  search-zero :
      (stop : V → Bool) (visited rest : List V) (v : V)
      → search name edges breadth stop zero visited (v ∷ rest) ≡ out_of_fuel
  unfolding search
  search-zero stop visited rest v = refl

  search-Nearest :
      (same : IsNamed name edges) (stop : V → Bool) (fair : IsFair stop) (starts : List V)
      (fuel d : ℕ) (visited front back : List V) (x : V) (seen_at_end : List V)
      → Layer stop starts d visited front back
      → search name edges breadth stop fuel visited (front ++ back) ≡ stopped x seen_at_end
      → Nearest stop starts x
  search-Nearest same stop fair starts fuel d visited [] [] x all p h =
      absurd (ended_not_stopped (sym (search_empty stop fuel visited) ∙ h))
  search-Nearest same stop fair starts zero d visited [] (w ∷ back) x all p h =
      absurd (fuel_not_stopped (sym (search-zero stop visited back w) ∙ h))
  search-Nearest same stop fair starts zero d visited (v ∷ rest) back x all p h =
      absurd (fuel_not_stopped (sym (search-zero stop visited (rest ++ back) v) ∙ h))
  search-Nearest same stop fair starts (suc fuel) d visited (v ∷ rest) back x all p h =
      round stop fair starts fuel
        (λ d' vs f b y ws. search-Nearest same stop fair starts fuel d' vs f b y ws) d visited rest
        back v x all p h
  search-Nearest same stop fair starts (suc fuel) d visited [] (w ∷ back) x all p h =
      round stop fair starts fuel
        (λ d' vs f b y ws. search-Nearest same stop fair starts fuel d' vs f b y ws) (suc d) visited
        back [] w x all (Layer-next same stop starts d visited (w ∷ back) p)
        (ap (λ (q : List V). search name edges breadth stop (suc fuel) visited (w ∷ q))
            (append-nil back)
          ∙ h)

  -- A breadth-first search that stops has found a node at which it is to stop, and which no path of
  -- fewer edges leads to another such node.
  pub nearest_lem :
      (same : IsNamed name edges) (stop : V → Bool) (fair : IsFair stop) (starts : List V)
      (fuel : ℕ) (x : V) (visited : List V)
      → search name edges breadth stop fuel [] starts ≡ stopped x visited
      → Nearest stop starts x
  nearest_lem same stop fair starts fuel x visited h =
      search-Nearest same stop fair starts fuel 0 [] starts [] x visited first
        (ap (search name edges breadth stop fuel []) (append-nil starts) ∙ h)
    where
      starting : (u : V) → Walk starts zero u → In u starts
      starting u (Walk.start i) = i

      first : Layer stop starts 0 [] starts []
      first = record {
        near = All-In (Walk starts zero) starts (λ v i. Walk.start i);
        far = tt;
        earlier = λ m u l r. absurd (omega (arith, l));
        level = λ u r. ground (arith, seen-In name u starts (starting u r));
        frontier = tt;
        passed = tt;
      }

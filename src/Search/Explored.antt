-- ===== src/Search/Explored.antt =====
-- What a search gives, whatever it is used for.
use rangexx.Base.{
  ℕ, zero, suc, ◌+◌, ◌≤◌, ◌≡◌, refl, inl, inr, Bool, true, false, List, [], ◌∷◌, Str, elem, All,
  arith, length, Bool-cases,
}
use rangexx.Search.Loop.{Strategy, Outcome, ended, stopped, out_of_fuel, push_all, seen, search}
use rangexx.Search.Ends.{weight, IsClosed, IsNamed, Within, All-edges, search_ends}
use rangexx.Search.Reach.{
  All-In, All-at, seen-In, Distinct, Reaches, Known, Sound, Sound-old, Sound-new,
}

pub not_seen : {V : Type 0} (name : V → Str) (v : V) → seen name v [] ≡ false
unfolding seen elem
not_seen name v = refl

module _ {V : Type 0} (name : V → Str) (edges : V → List V) where
  -- All nodes that can be reached, by name, and only those, each name once; and none of them is one at
  -- which the search stops.
  pub record Explored (stop : V → Bool) (starts visited : List V) : Type 0 where
    pub sound : All (Reaches name edges starts) visited
    pub complete : (v : V) → Reaches name edges starts v → seen name v visited ≡ true
    pub once : Distinct name visited
    pub passed : All (λ v. stop v ≡ false) visited

  abbrev pub SearchSpec : (V → Bool) → List V → Outcome V → Type 0
  SearchSpec stop starts (ended visited) = Explored stop starts visited
  SearchSpec stop starts (stopped v visited) = Reaches name edges starts v × (stop v ≡ true)
  SearchSpec stop starts out_of_fuel = ⊥

  pub Sound-Explored :
      (same : IsNamed name edges) (stop : V → Bool) (starts visited : List V)
      → Sound name edges stop starts visited []
      → Explored stop starts visited
  Sound-Explored same stop starts visited p = record {
    sound = p.done;
    complete = complete;
    once = p.once;
    passed = p.passed;
  }
    where
      known : (e : V) → Known name edges visited [] e → seen name e visited ≡ true
      known e k = ground (arith, k, not_seen name e)

      complete : (v : V) → Reaches name edges starts v → seen name v visited ≡ true
      complete v (Reaches.here i) =
          known v (All-at (Known name edges visited []) starts v p.first i)
      complete v (Reaches.next {u} r i) = known v (
          All-at (Known name edges visited []) (edges u) v
            (All-edges name edges (Known name edges visited []) same visited u p.frontier
              (complete u r))
            i)

  pub search-seen :
      (s : Strategy) (stop : V → Bool) (fuel : ℕ) (visited rest : List V) (v : V)
      → seen name v visited ≡ true
      → search name edges s stop (suc fuel) visited (v ∷ rest)
        ≡ search name edges s stop fuel visited rest
  unfolding search
  search-seen s stop fuel visited rest v old = ground (arith, old)

  pub search_on :
      (s : Strategy) (stop : V → Bool) (fuel : ℕ) (visited rest : List V) (v : V)
      → seen name v visited ≡ false
      → stop v ≡ false
      → search name edges s stop (suc fuel) visited (v ∷ rest)
        ≡ search name edges s stop fuel (v ∷ visited) (push_all s (edges v) rest)
  unfolding search
  search_on s stop fuel visited rest v new go_on = ground (arith, new, go_on)

  pub search_halt :
      (s : Strategy) (stop : V → Bool) (fuel : ℕ) (visited rest : List V) (v : V)
      → seen name v visited ≡ false
      → stop v ≡ true
      → search name edges s stop (suc fuel) visited (v ∷ rest) ≡ stopped v (v ∷ visited)
  unfolding search
  search_halt s stop fuel visited rest v new halt = ground (arith, new, halt)

  pub search-Sound :
      (same : IsNamed name edges) (s : Strategy) (stop : V → Bool) (starts : List V) (fuel : ℕ)
      (visited queue : List V)
      → Sound name edges stop starts visited queue
      → (search name edges s stop fuel visited queue ≡ out_of_fuel → ⊥)
      → SearchSpec stop starts (search name edges s stop fuel visited queue)
  unfolding search
  search-Sound same s stop starts fuel visited [] p h = Sound-Explored same stop starts visited p
  search-Sound same s stop starts zero visited (v ∷ rest) p h = absurd (h refl)
  search-Sound same s stop starts (suc fuel) visited (v ∷ rest) p h =
      elim (Bool-cases (seen name v visited)) [
        | inl old ↦
            let e = search-seen s stop fuel visited rest v old in
            rw e (
              search-Sound same s stop starts fuel visited rest
                (Sound-old name edges stop starts visited rest v old p) (rw e at h))
        | inr new ↦ elim (Bool-cases (stop v)) [
          | inl halt ↦ rw (search_halt s stop fuel visited rest v new halt) (p.waiting.0, halt)
          | inr go_on ↦
              let e = search_on s stop fuel visited rest v new go_on in
              rw e (
                search-Sound same s stop starts fuel (v ∷ visited) (push_all s (edges v) rest)
                  (Sound-new name edges s stop starts visited rest v new go_on p) (rw e at h))
        ]
      ]

  -- A search in a finite graph with enough fuel ends. It stops at a node that can be reached and is
  -- one at which it is to stop; else it has visited exactly the nodes that can be reached, each name
  -- once, and is to stop at none of them.
  pub search_lem :
      (same : IsNamed name edges) (us : List V)
      → IsClosed name edges us
      → (s : Strategy) (stop : V → Bool) (fuel : ℕ) (starts : List V)
      → All (Within name edges us) starts
      → weight name edges [] us + length starts ≤ fuel
      → SearchSpec stop starts (search name edges s stop fuel [] starts)
  search_lem same us closed s stop fuel starts h k =
      search-Sound same s stop starts fuel [] starts begin
        (search_ends name edges same us closed s stop fuel [] starts h k)
    where
      begin : Sound name edges stop starts [] starts
      begin = record {
        done = tt;
        waiting = All-In (Reaches name edges starts) starts (λ v i. Reaches.here i);
        frontier = tt;
        first =
            All-In (Known name edges [] starts) starts
              (λ v i. ground (arith, seen-In name v starts i));
        once = tt;
        passed = tt;
      }

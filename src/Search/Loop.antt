-- ===== src/Search/Loop.antt =====
-- The loop: the next node is left out if its name was visited; else it ends the search, or its edges
-- are added.
use rangexx.Base.{ℕ, zero, suc, Bool, true, false, List, [], ◌∷◌, ◌++◌, map, Str, elem}

-- `std::queue` or `std::stack`.
pub data Strategy : Type 0 where
  breadth depth : Strategy

-- How a search ends, with the nodes that were visited, the last of them first.
pub data Outcome (V : Type 0) : Type 0 where
  ended : List V → Outcome V
  stopped : V → List V → Outcome V
  out_of_fuel : Outcome V

-- The edges are pushed one after the other, on the top of a stack or at the end of a queue.
unfoldable pub push_all {ℓ} : {V : Type ℓ} → Strategy → List V → List V → List V
push_all depth [] rest = rest
push_all depth (e ∷ es) rest = push_all depth es (e ∷ rest)
push_all breadth es rest = rest ++ es

unfoldable pub seen : {V : Type 0} → (V → Str) → V → List V → Bool
unfolding elem
seen name v visited = elem (name v) (map name visited)

module _ {V : Type 0} (name : V → Str) (edges : V → List V) where
  unfoldable pub search : Strategy → (V → Bool) → ℕ → List V → List V → Outcome V
  unfolding push_all seen
  search s stop fuel visited [] = ended visited
  search s stop zero visited (v ∷ rest) = out_of_fuel
  search s stop (suc fuel) visited (v ∷ rest) = elim (seen name v visited) [
    | true ↦ search s stop fuel visited rest
    | false ↦ elim (stop v) [
      | true ↦ stopped v (v ∷ visited)
      | false ↦ search s stop fuel (v ∷ visited) (push_all s (edges v) rest)
    ]
  ]

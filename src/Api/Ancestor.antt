-- ===== src/Api/Ancestor.antt =====
-- librange/core/read_api.cpp: `nearest_common_ancestor`, two breadth-first searches that take turns.
use rangexx.Base.{
  ℕ, zero, suc, ◌+◌, ◌*◌, Bool, true, false, ◌||◌, ◌&&◌, Option, none, some, List, [], ◌∷◌, ◌++◌,
  map, Str, str_eq, ltb, if◌then◌else◌,
}
use rangexx.Base.Results.{Result, ok, throw, ◌>>=◌, Kind}
use rangexx.Search.Loop.{seen}
use rangexx.Graph.Interface.{NodeIface, GraphInterface}
use rangexx.Api.Names.{unprefix_node_name, prefixed_node_name}
use rangexx.Api.Lookup.{get_node, lookup}

-- `BFSNodeWrapper` with a node: the node and its depth.
abbrev pub Deep : Type 0 → Type 0
Deep V = V × ℕ

-- The visited nodes with their depths, and the queue.
pub record Side (V : Type 0) : Type 0 where
  pub visited : List (Deep V)
  pub queue : List (Deep V)

-- `ancestor` and `min_distance`, which is the greatest size_t until there is an ancestor; a depth is
-- far below that.
abbrev pub Best : Type 0 → Type 0
Best V = Option (Deep V)

abbrev pub is_empty : {V : Type 0} → List (Deep V) → Bool
is_empty [] = true
is_empty (v ∷ vs) = false

module _ {V : Type 0} (node : NodeIface V) where
  unfoldable pub depth_of : V → List (Deep V) → Option ℕ
  unfolding str_eq
  depth_of v [] = none
  depth_of v ((u, d) ∷ us) =
      let rest = depth_of v us in if str_eq (node.name v) (node.name u) then some d else rest

  abbrev pub nearer : V → ℕ → Best V → Best V
  nearer v distance none = some (v, distance)
  nearer v distance (some (a, least)) =
      if ltb distance least then some (v, distance) else some (a, least)

  -- A node that the other search has visited is an ancestor of both.
  abbrev pub consider : V → ℕ → Option ℕ → Best V → Best V
  consider v depth none best = best
  consider v depth (some other) best = nearer v (other + depth) best

  -- What one search does in a round, with the nodes that the other one has visited.
  unfoldable pub turn : List (Deep V) → Side V → Best V → Side V × Best V
  unfolding depth_of seen
  turn others mine best = elim mine.queue [
    | [] ↦ (mine, best)
    | ((v, d) ∷ rest) ↦ (
      if seen node.name v (map (λ (x : Deep V). x.0) mine.visited)
          then record { visited = mine.visited; queue = rest }
          else record {
            visited = (v, d) ∷ mine.visited;
            queue = rest ++ map (λ (e : V). (e, suc d)) (node.reverse_edges v);
          },
      consider v d (depth_of v others) best,
    )
  ]

  -- The node that was taken is deeper than twice the least distance.
  abbrev pub is_far : List (Deep V) → Best V → Bool
  is_far [] best = false
  is_far ((v, d) ∷ rest) none = false
  is_far ((v, d) ∷ rest) (some (a, least)) = ltb (least * 2) d

  unfoldable pub meet : ℕ → Side V → Side V → Best V → Result (Best V)
  unfolding turn
  meet zero one two best =
      if is_empty one.queue && is_empty two.queue then ok best else throw Kind.out_of_fuel []
  meet (suc fuel) one two best =
      let (one', best1) = turn two.visited one best in
      let (two', best2) = turn one'.visited two best1 in
      let rest = meet fuel one' two' best2 in
      if is_empty one.queue && is_empty two.queue
      then ok best
      else if is_far one.queue best2 || is_far two.queue best2
      then ok best2
      else rest

abbrev pub side_of : {V : Type 0} → V → Side V
side_of n = record { visited = []; queue = (n, 0) ∷ [] }

module _ {V : Type 0} (g : GraphInterface V) where
  -- A tuple of `true` and the name, or of `false` only.
  abbrev pub ancestor_name : Str → Best V → Option Str
  ancestor_name env_name none = none
  ancestor_name env_name (some (a, distance)) = some (unprefix_node_name env_name (g.node.name a))

  unfoldable pub nearest_common_ancestor : ℕ → Str → Str → Str → Result (Option Str)
  unfolding get_node prefixed_node_name meet unprefix_node_name
  nearest_common_ancestor fuel env_name node1_name node2_name =
      lookup g env_name node1_name >>= λ n1. lookup g env_name node2_name >>= λ n2.
      meet g.node fuel (side_of n1) (side_of n2) none >>= λ best. ok (ancestor_name env_name best)

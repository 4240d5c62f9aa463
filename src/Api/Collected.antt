-- ===== src/Api/Collected.antt =====
-- What the search of the primary graph collects for `environment_topological_sort`.
use rangexx.Base.{
  ◌≡◌, refl, sym, ap, ◌⊎◌, inl, inr, Bool, true, false, not, Option, none, some, List, [], ◌∷◌,
  if◌then◌else◌,
}
use mathlib.Core.Option.{some-injective, none-ne-some}
use rangexx.Search.Reach.{In}
use rangexx.Node.Info.{environment, type_eq}
use rangexx.Graph.Interface.{GraphInterface}
use rangexx.Api.Sort.{dependency_nodes}

module _ {V W : Type 0} (g : GraphInterface V) (dependency : GraphInterface W) where
  abbrev down : V → List V
  down = g.node.forward_edges

  -- What the search of the primary graph collects: a lookup for each node that is no environment.
  abbrev pub Collected : List V → Option W → Type 0
  Collected visited o =
      (v : V) × (In v visited
        × ((type_eq (g.node.type v) environment ≡ false)
            × (o ≡ dependency.get_node (g.node.name v))))

  pub In-dependency_nodes :
      (visited : List V) (found : List (Option W)) (o : Option W)
      → In o (dependency_nodes g dependency visited found)
      → Collected visited o ⊎ In o found
  unfolding dependency_nodes
  In-dependency_nodes [] found o i = inr i
  In-dependency_nodes (v ∷ visited) found o i =
      elim (In-dependency_nodes visited
        (if not (type_eq (g.node.type v) environment)
          then dependency.get_node (g.node.name v) ∷ found
          else found)
        o i) [
          | inl (u, (j, rest)) ↦ inl (u, (inr j, rest))
          | inr j ↦ by_type (type_eq (g.node.type v) environment) refl j
        ]
    where
      by_type :
          (b : Bool)
          → type_eq (g.node.type v) environment ≡ b
          → In o (if not b then dependency.get_node (g.node.name v) ∷ found else found)
          → Collected (v ∷ visited) o ⊎ In o found
      by_type true e j = inr j
      by_type false e (inl q) = inl (v, (inl refl, (e, q)))
      by_type false e (inr j) = inr j

  still_found :
      (b : Bool) (o p : Option W) (found : List (Option W))
      → In o found
      → In o (if b then p ∷ found else found)
  still_found true o p found i = inr i
  still_found false o p found i = i

  pub all_collected :
      (visited : List V) (found : List (Option W)) (v : V)
      → type_eq (g.node.type v) environment ≡ false
      → In v visited ⊎ In (dependency.get_node (g.node.name v)) found
      → In (dependency.get_node (g.node.name v)) (dependency_nodes g dependency visited found)
  unfolding dependency_nodes
  all_collected [] found v h (inl i) = absurd i
  all_collected [] found v h (inr i) = i
  all_collected (u ∷ visited) found v h (inl (inl e)) = rw (sym e) (
      rw h
        (all_collected visited (dependency.get_node (g.node.name v) ∷ found) v h (inr (inl refl))))
  all_collected (u ∷ visited) found v h (inl (inr i)) = all_collected visited _ v h (inl i)
  all_collected (u ∷ visited) found v h (inr i) = all_collected visited _ v h (
      inr (
        still_found (not (type_eq (g.node.type u) environment))
          (dependency.get_node (g.node.name v)) (dependency.get_node (g.node.name u)) found i))

  abbrev pub somes : List (Option W) → List W
  somes [] = []
  somes (none ∷ os) = somes os
  somes (some d ∷ os) = d ∷ somes os

  pub In-somes :
      (d : W) (os : List (Option W))
      → (In (some d) os → In d (somes os)) × (In d (somes os) → In (some d) os)
  In-somes d [] = (λ i. i, λ i. i)
  In-somes d (none ∷ os) = (
    λ i. elim i [ inl e ↦ absurd (none-ne-some d (sym e)) | inr j ↦ (In-somes d os).0 j ],
    λ i. inr ((In-somes d os).1 i),
  )
  In-somes d (some c ∷ os) = (
    λ i. elim i [ inl e ↦ inl (some-injective d c e) | inr j ↦ inr ((In-somes d os).0 j) ],
    λ i. elim i [ inl e ↦ inl (ap some e) | inr j ↦ inr ((In-somes d os).1 j) ],
  )

-- ===== src/Node/GraphVersions.antt =====
-- `add_graph_version` on the record of a node: the versions of the graph that changed the node.
use rangexx.Base.{
  ℕ, suc, ◌≤◌, ◌≡◌, refl, inl, inr, true, false, Option, none, some, List, [], ◌∷◌, arith,
  Bool-cases,
}
use rangexx.Node.Versions.{Below}
use rangexx.Node.Info.{NodeInfo}
use rangexx.Node.Edit.{has_version_from, add_graph_version_info}

has_version_from-Below :
    (b v : ℕ) (gs : List ℕ) → b ≤ v → Below b gs → has_version_from v gs ≡ false
unfolding has_version_from
has_version_from-Below b v [] h p = refl
has_version_from-Below b v (g ∷ gs) h p =
    ground (arith, has_version_from-Below g v gs (omega arith) p.1)

not-Below : (v : ℕ) (gs : List ℕ) → has_version_from v gs ≡ true → ¬ Below v gs
unfolding has_version_from
not-Below v gs h p = ground (arith, h, has_version_from-Below v v gs (omega arith) p)

below : (b v : ℕ) (gs : List ℕ) → Below b gs → has_version_from v gs ≡ false → Below v gs
unfolding has_version_from
below b v [] p h = tt
below b v (g ∷ gs) p h = (ground (arith, h), p.1)

-- A version is refused if the node has it or a later one, and then nothing changes; else it comes
-- last, and only the list of these versions changes.
abbrev pub GraphSpec : ℕ → NodeInfo → Option NodeInfo → Type 0
GraphSpec v i none = ¬ Below v i.graph_versions
GraphSpec v i (some j) =
    (j ≡ record i { graph_versions = v ∷ i.graph_versions }) × Below (suc v) j.graph_versions

module _ (b v : ℕ) (i : NodeInfo) (p : Below b i.graph_versions) where
  -- If the versions of the graph in a record rise strictly, then `add_graph_version` changes nothing
  -- if and only if one of them is not below the given version; else it makes this the last one, they
  -- still rise strictly, and nothing else in the record changes.
  pub add_graph_version_info_lem : GraphSpec v i (add_graph_version_info v i)
  unfolding add_graph_version_info
  add_graph_version_info_lem = elim (Bool-cases (has_version_from v i.graph_versions)) [
    | inl h ↦ rw h (not-Below v i.graph_versions h)
    | inr h ↦ rw h (refl, (omega arith, below b v i.graph_versions p h))
  ]

-- ===== src/Graph/Visible.antt =====
-- Which nodes `get_node` finds, and which names `create` refuses.
use rangexx.Base.{
  ℕ, ◌≤◌, ◌≡◌, refl, Bool, true, false, not, ◌&&◌, ◌||◌, Option, none, some, List, [], ◌∷◌, Str,
  if◌then◌else◌, arith, leb, ◌==◌,
}
use rangexx.Node.Versions.{has_version, contains, Below}
use rangexx.Node.Storage.{RecordType, Wire, Storage}
use rangexx.Node.Object.{newest}
use rangexx.Node.Stored.{current}
use rangexx.Graph.Nodes.{has_version_or_higher, is_empty, get_node, create}

contains-Below : (b w : ℕ) (vs : List ℕ) → b ≤ w → Below b vs → contains w vs ≡ false
unfolding contains
contains-Below b w [] h p = refl
contains-Below b w (v ∷ vs) h p = ground (arith, contains-Below v w vs (omega arith) p.1)

has_version-contains : (b w : ℕ) (vs : List ℕ) → Below b vs → has_version w vs ≡ contains w vs
unfolding has_version contains
has_version-contains b w [] p = refl
has_version-contains b w (v ∷ vs) p =
    ground (arith, has_version-contains v w vs p.1, contains-Below v w vs)

-- The version is in the list or a later one is.
abbrev pub reaches : ℕ → List ℕ → Bool
reaches w [] = false
reaches w (v ∷ vs) = leb w v || reaches w vs

reaches-Below : (b w : ℕ) (vs : List ℕ) → b ≤ w → Below b vs → reaches w vs ≡ false
reaches-Below b w [] h p = refl
reaches-Below b w (v ∷ vs) h p = ground (arith, reaches-Below v w vs (omega arith) p.1)

has_version_or_higher-reaches :
    (b w : ℕ) (vs : List ℕ) → Below b vs → has_version_or_higher w vs ≡ reaches w vs
unfolding has_version_or_higher
has_version_or_higher-reaches b w [] p = refl
has_version_or_higher-reaches b w (v ∷ vs) p = ground (arith, reaches-Below v w vs)

abbrev pub is_some {ℓ} : {A : Type ℓ} → Option A → Bool
is_some none = false
is_some (some a) = true

module _ (w : Wire) (s : Storage) (version : s.State → ℕ) (b : ℕ) (name : Str) (st : s.State)
    (p : Below b (current w s st name).graph_versions) where
  abbrev pub wanted_or_newest : ℕ → ℕ
  wanted_or_newest wanted = if wanted == newest then version st else wanted

  get_node_some :
      (wanted : ℕ) (versions : List (Str × ℕ))
      → is_some (get_node w s version wanted versions name st) ≡ (
          not (is_empty (s.get_record RecordType.node name st))
          && contains (wanted_or_newest wanted) (current w s st name).graph_versions)
  unfolding get_node
  get_node_some wanted versions = ground (
    arith,
    has_version-contains b (wanted_or_newest wanted) (current w s st name).graph_versions p,
  )

  create_some :
      is_some (create w s version name st).0
      ≡ not (reaches (version st) (current w s st name).graph_versions)
  unfolding create
  create_some =
      ground
        (arith, has_version_or_higher-reaches b (version st) (current w s st name).graph_versions p)

  -- If the versions of the graph in the record of a node rise strictly: `get_node` finds the node
  -- exactly if it has a record and the wanted version of the graph, or the newest one, is among them;
  -- and `create` refuses the name exactly if the newest version or a later one is among them.
  pub visible_lem :
      (wanted : ℕ) (versions : List (Str × ℕ))
      → (is_some (get_node w s version wanted versions name st) ≡ (
          not (is_empty (s.get_record RecordType.node name st))
          && contains (wanted_or_newest wanted) (current w s st name).graph_versions))
        × (is_some (create w s version name st).0
            ≡ not (reaches (version st) (current w s st name).graph_versions))
  visible_lem wanted versions = (get_node_some wanted versions, create_some)

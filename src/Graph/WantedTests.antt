-- ===== src/Graph/WantedTests.antt =====
-- A run of `set_wanted_version`, and its theorem there.
use rangexx.Base.{ℕ, ◌≡◌, refl, true, some, [], ◌∷◌, List, Str, codes, str_eq}
use rangexx.Base.Results.{ok}
use rangexx.Node.Storage.{RecordType}
use rangexx.Node.Object.{newest}
use rangexx.Db.Change.{Change}
use rangexx.Graph.Nodes.{node_version}
use rangexx.Graph.Wanted.{Wanting, note, note_from, set_wanted_version}
use rangexx.Graph.Shown.{Wanted, set_wanted_version_lem}

abbrev changed : Str → ℕ → Change
changed key v = record { type = RecordType.node; key = key; object_version = v; text = [] }

abbrev a : Str
a = codes "a"

abbrev b : Str
b = codes "b"

-- `a` is changed in the versions 1 and 3 of the graph, `b` in the versions 2 and 3.
abbrev three_versions : List (List Change)
three_versions = (changed a 1 ∷ []) ∷ (changed b 1 ∷ []) ∷ (changed a 2 ∷ changed b 2 ∷ []) ∷ []

abbrev at_newest : Wanting
at_newest = record { wanted_version = newest; node_version_map = [] }

-- `a` is not changed in version 2, and is shown as version 3 left it.
wanted_run :
    ((set_wanted_version 3 three_versions 2 at_newest).0 ≡ ok true)
    × ((node_version a (set_wanted_version 3 three_versions 2 at_newest).1.node_version_map
          ≡ some 2)
        × (node_version b (set_wanted_version 3 three_versions 2 at_newest).1.node_version_map
            ≡ some 1))
unfolding set_wanted_version note_from note node_version str_eq
wanted_run = (refl, (refl, refl))

set_wanted_version_lem_example :
    Wanted 3 three_versions 2 at_newest
      (set_wanted_version 3 three_versions 2 at_newest).0
      (set_wanted_version 3 three_versions 2 at_newest).1
set_wanted_version_lem_example = set_wanted_version_lem 3 three_versions 2 at_newest

-- ===== src/Graph/Wanted.antt =====
-- librange/graph/graphdb.cpp: `set_wanted_version`, which makes a graph show one of its versions.
use rangexx.Base.{
  ℕ, ◌-◌, Bool, true, false, List, [], ◌∷◌, Str, codes, if◌then◌else◌, leb, ◌==◌, length,
}
use mathlib.Core.List.{reverse}
use rangexx.Base.Results.{Result, ok, err, throw, other, undefined}
use rangexx.Node.Storage.{RecordType}
use rangexx.Node.Object.{newest}
use rangexx.Db.Change.{Change}

-- The version that is wanted, and the versions of nodes at it: the entry that was assigned last comes
-- first.
pub record Wanting : Type 0 where
  pub wanted_version : ℕ
  pub node_version_map : List (Str × ℕ)

abbrev pub is_node : RecordType → Bool
is_node RecordType.node = true
is_node _ = false

-- The loop over the changes of one version.
unfoldable pub note : List Change → List (Str × ℕ) → List (Str × ℕ)
note [] map = map
note (c ∷ cs) map = note cs (if is_node c.type then (c.key, c.object_version) ∷ map else map)

-- The loop over the versions, the last one first; past the end of the history the iterator is not valid.
unfoldable pub note_from : ℕ → ℕ → List (List Change) → List (Str × ℕ) → Result (List (Str × ℕ))
unfolding note
note_from ver v [] map = if leb ver v then throw undefined [] else ok map
note_from ver v (cs ∷ older) map =
    let rest = note_from ver (v - 1) older (note cs map) in if leb ver v then rest else ok map

abbrev wanting_from : ℕ → Result (List (Str × ℕ)) → Result Bool × Wanting
wanting_from ver (ok map) = (ok true, record { wanted_version = ver; node_version_map = map })
wanting_from ver (err e) = (err e, record { wanted_version = ver; node_version_map = [] })

-- `version` is that of the instance, `history` its changes, the oldest first; the answer, and what the
-- graph wants after the call, thrown out of or not.
unfoldable pub set_wanted_version : ℕ → List (List Change) → ℕ → Wanting → Result Bool × Wanting
unfolding note_from
set_wanted_version version history ver w =
    if ver == w.wanted_version
    then (ok true, w)
    else if ver == newest
    then (ok true, record { wanted_version = ver; node_version_map = [] })
    else if leb ver version
    then (if length history == version
        then wanting_from ver (note_from ver version (reverse history) [])
        else (
          throw other (codes "changehistory inconsistent with graph version"),
          record { wanted_version = ver; node_version_map = [] },
        ))
    else (ok false, record { wanted_version = w.wanted_version; node_version_map = [] })

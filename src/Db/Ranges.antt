-- ===== src/Db/Ranges.antt =====
-- librange/db/berkeley_dbcxx_backend.cpp: the versions of the whole range, each with the versions of
-- its graphs.
use rangexx.Base.{
  ℕ, suc, ◌+◌, ◌-◌, ◌%◌, ◌^◌, none, some, List, [], ◌∷◌, ◌++◌, map, Str, leb, if◌then◌else◌, length,
}
use mathlib.Core.List.{reverse}
use rangexx.Base.Results.{Result, ok, throw, undefined}
use rangexx.Node.Object.{newest}
use rangexx.Graph.Nodes.{node_version}
use rangexx.Db.Change.{Item, Changed, ChangeList}

-- The record `range_changelist`, which each operation reads and parses; no record is an empty list. And
-- `graph_wanted_version_map_`, where the entry that was assigned last comes first.
pub record Ranges : Type 0 where
  pub changes : ChangeList
  pub graph_wanted_version_map : List (Str × ℕ)

abbrev pub range_version : Ranges → ℕ
range_version r = r.changes.current_version

-- `graphs` are the graphs with their versions, `now` is what `gettimeofday` says.
unfoldable pub add_new_range_version : List (Str × ℕ) → ℕ × ℕ → Ranges → Ranges
add_new_range_version graphs now r = record r {
  changes = record {
    current_version = (r.changes.current_version + 1) % 2 ^ 64;
    change =
        r.changes.change
        ++ record {
          timestamp = now;
          items = map (λ (v : Str × ℕ). record { key = v.0; version = v.1 }) graphs;
        }
          ∷ [];
  };
}

-- `t` has no value where a change has no items: then it is `unset`.
abbrev pub time_of : ℕ → Changed → ℕ
time_of unset c = elim c.items [ [] ↦ unset | i ∷ items ↦ c.timestamp.0 ]

-- The time of each change, and its place.
unfoldable pub get_changelist_from : ℕ → ℕ → List Changed → List (ℕ × ℕ)
get_changelist_from unset c_idx [] = []
get_changelist_from unset c_idx (c ∷ cs) =
    (time_of unset c, c_idx) ∷ get_changelist_from unset (suc c_idx) cs

unfoldable pub get_changelist : ℕ → Ranges → List (ℕ × ℕ)
unfolding get_changelist_from
get_changelist unset r = get_changelist_from unset 0 r.changes.change

abbrev pub assign_items : List Item → List (Str × ℕ) → List (Str × ℕ)
assign_items [] m = m
assign_items (i ∷ items) m = assign_items items ((i.key, i.version) ∷ m)

-- The loop, with the last change first: `c_idx` is a uint32_t, so it is the greatest one below 0.
unfoldable pub want_from : ℕ → List Changed → List (Str × ℕ) → Result (List (Str × ℕ))
want_from version [] m = if leb version (2 ^ 32 - 1) then throw undefined [] else ok m
want_from version (c ∷ older) m =
    let rest = want_from version older (assign_items c.items m) in
    if leb version (length older) then rest else ok m

unfoldable pub set_wanted_version : ℕ → Ranges → Result (List (Str × ℕ))
unfolding want_from
set_wanted_version version r =
    want_from version (reverse r.changes.change) r.graph_wanted_version_map

unfoldable pub get_graph_wanted_version : Str → Ranges → ℕ
unfolding node_version
get_graph_wanted_version name r = elim (node_version name r.graph_wanted_version_map) [
  | none ↦ newest
  | some v ↦ v
]

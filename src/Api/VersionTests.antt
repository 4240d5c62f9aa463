-- ===== src/Api/VersionTests.antt =====
-- Runs on the versions of the range, and the theorem on them there.
use rangexx.Base.{ℕ, ◌≡◌, refl, Option, some, [], ◌∷◌, Str, codes, arith}
use rangexx.Base.Results.{ok}
use rangexx.Db.Ranges.{
  Ranges, range_version, add_new_range_version, get_changelist_from, get_changelist, want_from,
  set_wanted_version,
}
use rangexx.Api.Versions.{VersionSpec, version_at, get_range_version, get_range_version_lem}

abbrev no_changes : Ranges
no_changes = record {
  changes = record { current_version = 0; change = [] };
  graph_wanted_version_map = [];
}

abbrev primary : ℕ → Str × ℕ
primary v = (codes "primary", v)

-- Three versions, made at the times 10, 20 and 30.
abbrev three : Ranges
three =
    add_new_range_version (primary 3 ∷ []) (30, 0)
      (add_new_range_version (primary 2 ∷ []) (20, 0)
        (add_new_range_version (primary 1 ∷ []) (10, 0) no_changes))

abbrev clock : Str → Option ℕ
clock timespec = some 15

-- At the time 15 there was the first version; the newest is given. The wanted version 1 shows the
-- graph as the change at place 1 left it, when `range_version` was 2.
versions_run :
    (range_version three ≡ 3)
    × ((get_range_version clock 0 three (codes "15") ≡ ok (some 3))
        × (set_wanted_version 1 three ≡ ok (primary 2 ∷ primary 3 ∷ [])))
unfolding add_new_range_version get_range_version version_at get_changelist get_changelist_from
    set_wanted_version want_from
versions_run = (refl, (refl, refl))

get_range_version_lem_example :
    VersionSpec 0 three (codes "15") (some 15) (get_range_version clock 0 three (codes "15"))
get_range_version_lem_example =
    get_range_version_lem clock 0 three
      (unfold add_new_range_version in
        ((omega arith, (omega arith, tt)), ((omega arith, tt), (tt, tt))))
      (codes "15")

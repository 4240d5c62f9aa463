-- ===== src/Api/Versions.antt =====
-- librange/core/read_api.cpp: `get_range_version`, the version of the range at a time.
use rangexx.Base.{
  ℕ, suc, ◌≤◌, ◌≡◌, refl, ap, inl, inr, Option, none, some, List, [], ◌∷◌, Str, ltb, if◌then◌else◌,
  arith, Bool-cases, All,
}
use rangexx.Base.Results.{Result, ok, err, throw, invalid_timespec}
use rangexx.Search.Reach.{All-map}
use rangexx.Db.Change.{Changed}
use rangexx.Db.Ranges.{Ranges, range_version, time_of, get_changelist_from, get_changelist}

-- The loop over the changes, each with its time and its version.
unfoldable pub version_at : ℕ → ℕ → List (ℕ × ℕ) → Option ℕ
version_at cmp_time found_version [] = none
version_at cmp_time found_version ((change_time, ver) ∷ cs) =
    let rest = version_at cmp_time ver cs in
    if ltb change_time cmp_time then some found_version else rest

-- `parse_datetime` of the gnulib copy gives the time in seconds; `none` is a RangeNull.
unfoldable pub get_range_version : (Str → Option ℕ) → ℕ → Ranges → Str → Result (Option ℕ)
unfolding version_at get_changelist
get_range_version parse_datetime unset r timespec = elim (parse_datetime timespec) [
  | none ↦ throw invalid_timespec timespec
  | some cmp_time ↦ ok (version_at cmp_time (range_version r) (get_changelist unset r))
]

-- The times of the changes do not fall.
abbrev pub Rising : ℕ → List Changed → Type 0
Rising unset [] = Unit
Rising unset (c ∷ cs) = All (λ e. time_of unset c ≤ time_of unset e) cs × Rising unset cs

too_early :
    (unset cmp found c_idx : ℕ) (cs : List Changed)
    → All (λ e. cmp ≤ time_of unset e) cs
    → version_at cmp found (get_changelist_from unset c_idx cs) ≡ none
unfolding version_at get_changelist_from
too_early unset cmp found c_idx [] h = refl
too_early unset cmp found c_idx (c ∷ cs) h =
    ground (arith, h.0, too_early unset cmp c_idx (suc c_idx) cs h.1)

-- The newest version if the first change was before the time, else nothing.
abbrev pub newest_if : ℕ → ℕ → Ranges → List Changed → Option ℕ
newest_if unset cmp r [] = none
newest_if unset cmp r (c ∷ cs) = if ltb (time_of unset c) cmp then some (range_version r) else none

abbrev pub VersionSpec : ℕ → Ranges → Str → Option ℕ → Result (Option ℕ) → Type 0
VersionSpec unset r timespec none o = o ≡ err (record { kind = invalid_timespec; what = timespec })
VersionSpec unset r timespec (some cmp) o = o ≡ ok (newest_if unset cmp r r.changes.change)

module _ (parse_datetime : Str → Option ℕ) (unset : ℕ) (r : Ranges)
    (rising : Rising unset r.changes.change) where
  -- If the times of the changes do not fall, `get_range_version` throws exactly if the time cannot be
  -- read; else it gives the newest version for every time after the first change, and nothing for a
  -- time before it.
  pub get_range_version_lem :
      (timespec : Str)
      → VersionSpec unset r timespec
          (parse_datetime timespec)
          (get_range_version parse_datetime unset r timespec)
  unfolding get_range_version get_changelist
  get_range_version_lem timespec = by_time (parse_datetime timespec)
    where
      by_changes :
          (cmp : ℕ) (cs : List Changed)
          → Rising unset cs
          → version_at cmp (range_version r) (get_changelist_from unset 0 cs)
            ≡ newest_if unset cmp r cs
      by_changes cmp [] h = refl
      by_changes cmp (c ∷ cs) h = elim (Bool-cases (ltb (time_of unset c) cmp)) [
        | inl e ↦ rw e refl
        | inr e ↦ rw e (
            too_early unset cmp 0 1 cs (
              All-map (λ x. time_of unset c ≤ time_of unset x) (λ x. cmp ≤ time_of unset x) cs
                (λ x k. ground (arith, k, e)) h.0))
      ]

      by_time :
          (o : Option ℕ)
          → VersionSpec unset r timespec o (elim o as (λ x. Result (Option ℕ)) [
            | none ↦ throw invalid_timespec timespec
            | some cmp ↦ ok (version_at cmp (range_version r) (get_changelist unset r))
          ])
      by_time none = refl
      by_time (some cmp) = ap ok (by_changes cmp r.changes.change rising)

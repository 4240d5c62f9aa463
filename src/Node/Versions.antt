-- ===== src/Node/Versions.antt =====
-- librange/db/pbuff_node.cpp: the scans of a list of versions. Every loop of the source runs over
-- such a list from its last element to its first, so a list is kept with the newest version first:
-- `add_versions` is `∷`, `RemoveLast` is `tail`, and the loops are recursions on the list.
use rangexx.Base.{
  ℕ, suc, ◌+◌, ◌%◌, ◌^◌, ◌≤◌, ◌<◌, ◌≡◌, refl, Bool, true, false, List, [], ◌∷◌, arith, ltb, ◌==◌,
  if◌then◌else◌,
}

-- `cmp_version + 1` on a uint64_t.
unfoldable pub next_version : ℕ → ℕ
next_version v = (v + 1) % 2 ^ 64

pub next_version-eq : (v : ℕ) → v + 1 < 2 ^ 64 → next_version v ≡ suc v
unfolding next_version
next_version-eq v h = omega arith

-- Is `cmp` in the list? The scan stops at the first older version.
unfoldable pub has_version : ℕ → List ℕ → Bool
has_version cmp [] = false
has_version cmp (v ∷ vs) =
    let rest = has_version cmp vs in if v == cmp then true else if ltb v cmp then false else rest

-- How the scan of `add_edge` ends.
pub data Scan : Type 0 where
  current older absent : Scan

unfoldable pub scan_edge : ℕ → List ℕ → Scan
scan_edge cmp [] = absent
scan_edge cmp (v ∷ vs) =
    let rest = scan_edge cmp vs in if cmp == v then current else if ltb v cmp then older else rest

unfoldable pub contains : ℕ → List ℕ → Bool
contains new [] = false
contains new (v ∷ vs) = let rest = contains new vs in if new == v then true else rest

unfoldable pub add_unique_new_version : ℕ → List ℕ → List ℕ
unfolding contains
add_unique_new_version new vs = if contains new vs then vs else new ∷ vs

-- The loop of `update_unique_new_version` over the versions left of `vs`.
unfoldable pub scan_update : List ℕ → ℕ → ℕ → List ℕ → Bool × List ℕ
unfolding add_unique_new_version
scan_update vs cmp new [] = (false, vs)
scan_update vs cmp new (v ∷ rest) =
    let later = scan_update vs cmp new rest in
    if new == v
    then (true, vs)
    else if cmp == v
    then (true, add_unique_new_version new vs)
    else later

unfoldable pub update_unique_new_version : List ℕ → ℕ → ℕ → Bool × List ℕ
unfolding scan_update
update_unique_new_version vs cmp new = scan_update vs cmp new vs

-- The versions fall strictly, and all are below the bound.
abbrev pub Below : ℕ → List ℕ → Type 0
Below b [] = Unit
Below b (v ∷ vs) = (v < b) × Below v vs

pub Below-mono : (b c : ℕ) (vs : List ℕ) → b ≤ c → Below b vs → Below c vs
Below-mono b c [] h p = tt
Below-mono b c (v ∷ vs) h p = (omega arith, p.1)

pub has_version-Below : (b w : ℕ) (vs : List ℕ) → b ≤ w → Below b vs → has_version w vs ≡ false
unfolding has_version
has_version-Below b w [] h p = refl
has_version-Below b w (v ∷ vs) h p = ground arith

pub contains-Below : (b w : ℕ) (vs : List ℕ) → b ≤ w → Below b vs → contains w vs ≡ false
unfolding contains
contains-Below b w [] h p = refl
contains-Below b w (v ∷ vs) h p = ground (arith, contains-Below v w vs (omega arith) p.1)

scan_update-Below :
    (all : List ℕ) (b cmp : ℕ) (vs : List ℕ)
    → contains (suc cmp) all ≡ false
    → b ≤ suc cmp
    → Below b vs
    → scan_update all cmp (suc cmp) vs
      ≡ (if has_version cmp vs then (true, suc cmp ∷ all) else (false, all))
unfolding scan_update has_version
scan_update-Below all b cmp [] c h p = refl
scan_update-Below all b cmp (v ∷ vs) c h p =
    ground
      (arith, c, scan_update-Below all v cmp vs c (omega arith) p.1, has_version-Below v cmp vs)

-- The new version is put in front exactly where the current one is in the list.
pub update_unique_new_version_lem :
    (cmp : ℕ) (vs : List ℕ)
    → Below (suc cmp) vs
    → update_unique_new_version vs cmp (suc cmp)
      ≡ (if has_version cmp vs then (true, suc cmp ∷ vs) else (false, vs))
unfolding update_unique_new_version
update_unique_new_version_lem cmp vs p =
    scan_update-Below vs (suc cmp) cmp vs (contains-Below (suc cmp) (suc cmp) vs (omega arith) p)
      (omega arith) p

-- A list that begins with the new version stays as it is.
pub update_unique_new_version_self :
    (cmp new : ℕ) (vs : List ℕ) → update_unique_new_version (new ∷ vs) cmp new ≡ (true, new ∷ vs)
unfolding update_unique_new_version
update_unique_new_version_self cmp new vs = ground arith

-- A newer version in front does not change what the list says of an older one.
pub has_version-older :
    (w new : ℕ) (vs : List ℕ) → w < new → has_version w (new ∷ vs) ≡ has_version w vs
unfolding has_version
has_version-older w new vs h = ground arith

pub has_version_self : (new : ℕ) (vs : List ℕ) → has_version new (new ∷ vs) ≡ true
unfolding has_version
has_version_self new vs = ground arith

-- ===== src/Graph/Shown.antt =====
-- Which versions of its nodes a graph shows.
use rangexx.Base.{
  ℕ, suc, ◌-◌, ◌≤◌, ◌<◌, ◌≡◌, ◌≢◌, refl, sym, ap, ◌∙◌, inl, inr, Bool, true, false, none, List, [],
  ◌∷◌, Str, leb, ◌==◌, length, arith, Bool-cases,
}
use mathlib.Core.List.{reverse, reverse-reverse}
use rangexx.Base.Results.{Result, ok, err, throw, other, undefined, Exception}
use rangexx.Node.Object.{newest}
use rangexx.Db.Change.{Change}
use rangexx.Graph.Nodes.{node_version}
use rangexx.Graph.Wanted.{Wanting, note, note_from, set_wanted_version}
use rangexx.Graph.History.{drop, or, first_change, length-reverse, or_none, Noted, note_from_lem}

-- The wanted version is neither the one that is shown nor the newest.
abbrev Asked : ℕ → Wanting → Type 0
Asked ver w = (ver ≢ w.wanted_version) × (ver ≢ newest)

-- How `set_wanted_version` ends: no two cases overlap.
pub data Wanted (version : ℕ) (history : List (List Change)) (ver : ℕ) (w : Wanting)
    : Result Bool → Wanting → Type 0 where
  already : ver ≡ w.wanted_version → Wanted version history ver w (ok true) w
  to_newest :
      ver ≢ w.wanted_version
      → ver ≡ newest
      → Wanted version history ver w
          (ok true)
          (record { wanted_version = ver; node_version_map = [] })
  too_high :
      Asked ver w
      → version < ver
      → Wanted version history ver w
          (ok false)
          (record { wanted_version = w.wanted_version; node_version_map = [] })
  inconsistent :
      {e : Exception}
      → Asked ver w
      → ver ≤ version
      → length history ≢ version
      → e.kind ≡ other
      → Wanted version history ver w
          (err e)
          (record { wanted_version = ver; node_version_map = [] })
  past_end :
      {e : Exception}
      → Asked ver w
      → length history ≡ version
      → ver ≡ 0
      → e.kind ≡ undefined
      → Wanted version history ver w
          (err e)
          (record { wanted_version = ver; node_version_map = [] })
  shown :
      {m : List (Str × ℕ)}
      → Asked ver w
      → length history ≡ version
      → 1 ≤ ver
      → ver ≤ version
      → ((name : Str) → node_version name m ≡ first_change name (drop (ver - 1) history))
      → Wanted version history ver w
          (ok true)
          (record { wanted_version = ver; node_version_map = m })

module _ (version : ℕ) (history : List (List Change)) (ver : ℕ) (w : Wanting) where
  at_zero :
      (older : List (List Change)) (m : List (Str × ℕ))
      → note_from 0 (length older) older m ≡ throw undefined []
  unfolding note_from
  at_zero [] m = refl
  at_zero (cs ∷ older) m =
      let one : suc (length older) - 1 ≡ length older = omega arith in
      let positive : leb 0 (suc (length older)) ≡ true = ground arith in
      rw one (rw positive (at_zero older (note cs m)))

  -- Where the history is consistent.
  module _ (e : length history ≡ version) where
    whole : version ≡ length (reverse history)
    whole = sym (length-reverse history ∙ e)

    from_zero : ver ≡ 0 → note_from ver version (reverse history) [] ≡ throw undefined []
    from_zero z = rw z (rw whole (at_zero (reverse history) []))

    from_first :
        1 ≤ ver → Noted ver (reverse history) [] (note_from ver version (reverse history) [])
    from_first h = rw whole (note_from_lem ver h (reverse history) [])

    looked_up :
        (name : Str)
        → or (first_change name (drop (ver - 1) (reverse (reverse history)))) none
          ≡ first_change name (drop (ver - 1) history)
    looked_up name =
        or_none (first_change name (drop (ver - 1) (reverse (reverse history))))
        ∙ ap (λ xs. first_change name (drop (ver - 1) xs)) (reverse-reverse history)

  -- A graph is made to show the version that is wanted, unless it is shown already, when nothing
  -- changes. The newest version is always shown, without a map. Of the others, a version above the
  -- graph's is refused, and the graph is left without a map but with the version that it wanted
  -- before. One that is not above it is thrown out of if the history has not as many entries as
  -- the graph has versions, and else version 0 runs past the end of the history; both leave the
  -- graph with the wanted version but without a map. Any other version is shown: every node has
  -- the version that it was given by the first change at or after the wanted version, and none
  -- where there is no such change.
  pub set_wanted_version_lem :
      Wanted version history ver w
        (set_wanted_version version history ver w).0
        (set_wanted_version version history ver w).1
  unfolding set_wanted_version node_version
  set_wanted_version_lem = elim (Bool-cases (ver == w.wanted_version)) [
    | inl a ↦ rw a (already (ground (arith, a)))
    | inr a ↦ elim (Bool-cases (ver == newest)) [
      | inl b ↦ rw a (rw b (to_newest (ground (arith, a)) (ground (arith, b))))
      | inr b ↦
          let asked : Asked ver w = (ground (arith, a), ground (arith, b)) in
          elim (Bool-cases (leb ver version)) [
            | inl c ↦ elim (Bool-cases (length history == version)) [
              | inl d ↦
                  let consistent : length history ≡ version = ground (arith, d) in
                  elim (Bool-cases (ver == 0)) [
                    | inl z ↦
                        let zero : ver ≡ 0 = ground (arith, z) in
                        rw a (
                          rw b (
                            rw c (
                              rw d (
                                rw (from_zero consistent zero)
                                  (past_end asked consistent zero refl)))))
                    | inr z ↦
                        let (m, (q, look)) = from_first consistent (ground (arith, z)) in
                        rw a (
                          rw b (
                            rw c (
                              rw d (
                                rw q (
                                  shown asked consistent (ground (arith, z)) (ground (arith, c))
                                    λ name. look name ∙ looked_up consistent name)))))
                  ]
              | inr d ↦ rw a (
                  rw b
                    (rw c (rw d (inconsistent asked (ground (arith, c)) (ground (arith, d)) refl))))
            ]
            | inr c ↦ rw a (rw b (rw c (too_high asked (ground (arith, c)))))
          ]
    ]
  ]

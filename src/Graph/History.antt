-- ===== src/Graph/History.antt =====
-- What the loops of `set_wanted_version` leave in the map of versions.
use rangexx.Base.{
  ℕ, zero, suc, ◌-◌, ◌≤◌, ◌≡◌, refl, sym, ap, ◌∙◌, inl, inr, Bool, true, false, Option, none, some,
  List, [], ◌∷◌, ◌++◌, Str, str_eq, if◌then◌else◌, leb, length, length-append, arith, Bool-cases,
}
use mathlib.Core.List.{reverse, reverse-cons}
use rangexx.Base.Results.{Result, ok}
use rangexx.Db.Change.{Change}
use rangexx.Graph.Nodes.{node_version}
use rangexx.Graph.Wanted.{is_node, note, note_from}

abbrev pub drop : {A : Type 0} → ℕ → List A → List A
drop zero xs = xs
drop (suc n) [] = []
drop (suc n) (x ∷ xs) = drop n xs

abbrev pub or : Option ℕ → Option ℕ → Option ℕ
or none d = d
or (some v) d = some v

-- The last change of the node in one version.
abbrev pub last_change : Str → List Change → Option ℕ
last_change name [] = none
last_change name (c ∷ cs) =
    or (last_change name cs)
      (if is_node c.type then (if str_eq name c.key then some c.object_version else none) else none)

-- The change in the first of the versions that changed the node.
abbrev pub first_change : Str → List (List Change) → Option ℕ
first_change name [] = none
first_change name (cs ∷ later) = or (last_change name cs) (first_change name later)

drop_all : {A : Type 0} (n : ℕ) (xs : List A) → length xs ≤ n → drop n xs ≡ []
drop_all zero [] h = refl
drop_all (suc n) [] h = refl
drop_all zero (x ∷ xs) h = absurd (ground (arith, h))
drop_all (suc n) (x ∷ xs) h = drop_all n xs (omega (arith, h))

drop-append :
    {A : Type 0} (n : ℕ) (xs ys : List A) → n ≤ length xs → drop n (xs ++ ys) ≡ drop n xs ++ ys
drop-append zero xs ys h = refl
drop-append (suc n) [] ys h = absurd (ground (arith, h))
drop-append (suc n) (x ∷ xs) ys h = drop-append n xs ys (omega (arith, h))

pub length-reverse : {A : Type 0} (xs : List A) → length (reverse xs) ≡ length xs
length-reverse [] = refl
length-reverse (x ∷ xs) =
    ap length (reverse-cons x xs)
    ∙ omega (arith, length-append (reverse xs) (x ∷ []), length-reverse xs)

or_assoc : (a b c : Option ℕ) → or (or a b) c ≡ or a (or b c)
or_assoc none b c = refl
or_assoc (some v) b c = refl

pub or_none : (a : Option ℕ) → or a none ≡ a
or_none none = refl
or_none (some v) = refl

first_change-append :
    (name : Str) (xs : List (List Change)) (cs : List Change)
    → first_change name (xs ++ cs ∷ []) ≡ or (first_change name xs) (last_change name cs)
first_change-append name [] cs = or_none (last_change name cs)
first_change-append name (x ∷ xs) cs =
    ap (or (last_change name x)) (first_change-append name xs cs)
    ∙ sym (or_assoc (last_change name x) (first_change name xs) (last_change name cs))

node_version-note :
    (name : Str) (cs : List Change) (m : List (Str × ℕ))
    → node_version name (note cs m) ≡ or (last_change name cs) (node_version name m)
unfolding note node_version
node_version-note name [] m = refl
node_version-note name (c ∷ cs) m =
    node_version-note name cs (if is_node c.type then (c.key, c.object_version) ∷ m else m)
    ∙ (ap (or (last_change name cs)) (at (is_node c.type) (str_eq name c.key) refl)
        ∙ sym (
            or_assoc (last_change name cs)
              (if is_node c.type
                then (if str_eq name c.key then some c.object_version else none)
                else none)
              (node_version name m)))
  where
    at :
        (b d : Bool)
        → str_eq name c.key ≡ d
        → node_version name (if b then (c.key, c.object_version) ∷ m else m)
          ≡ or
              (if b then (if d then some c.object_version else none) else none)
              (node_version name m)
    at false d e = refl
    at true true e = rw e refl
    at true false e = rw e refl

-- The map that the loop over the first versions leaves.
abbrev pub Noted : ℕ → List (List Change) → List (Str × ℕ) → Result (List (Str × ℕ)) → Type 0
Noted ver older m r =
    (after : List (Str × ℕ)) × ((r ≡ ok after)
      × ((name : Str)
          → node_version name after
            ≡ or (first_change name (drop (ver - 1) (reverse older))) (node_version name m)))

pub note_from_lem :
    (ver : ℕ)
    → 1 ≤ ver
    → (older : List (List Change)) (m : List (Str × ℕ))
    → Noted ver older m (note_from ver (length older) older m)
unfolding note_from
note_from_lem ver h [] m = (
  m,
  (
    ground (arith, h),
    λ name.
        ap (λ xs. or (first_change name xs) (node_version name m))
          (sym (drop_all (ver - 1) [] (omega arith))),
  ),
)
note_from_lem ver h (cs ∷ older) m = elim (Bool-cases (leb ver (suc (length older)))) [
  | inl e ↦
      let (after, (q, look)) = note_from_lem ver h older (note cs m) in
      let one : suc (length older) - 1 ≡ length older = omega arith in
      (
        after,
        (
          rw e (rw one q),
          λ name.
              look name
              ∙ (ap (or (first_change name (drop (ver - 1) (reverse older))))
                    (node_version-note name cs m)
                  ∙ (sym (
                        or_assoc (first_change name (drop (ver - 1) (reverse older)))
                          (last_change name cs) (node_version name m))
                      ∙ ap (λ a. or a (node_version name m))
                          (sym (first_change-append name (drop (ver - 1) (reverse older)) cs)
                            ∙ ap (first_change name) (
                                sym (
                                  drop-append (ver - 1) (reverse older) (cs ∷ [])
                                    (ground (arith, e, length-reverse older)))
                                ∙ ap (drop (ver - 1)) (sym (reverse-cons cs older)))))),
        ),
      )
  | inr e ↦ (
    m,
    (
      rw e refl,
      λ name.
          ap (λ xs. or (first_change name xs) (node_version name m))
            (sym (
              drop_all (ver - 1) (reverse (cs ∷ older))
                (ground (arith, e, length-reverse (cs ∷ older))))),
    ),
  )
]

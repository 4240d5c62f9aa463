-- ===== src/Compiler/Sorting.antt =====
-- Sorting, and what is absent from a sorted list.
use rangexx.Base.{
  ◌≡◌, refl, sym, ◌∙◌, ap, inl, inr, ◌⊎◌, true, false, List, [], ◌∷◌, Str, str_eq, str_eq_iff,
  arith, Bool-cases,
}
use mathlib.Core.Path.{subst}
use rangexx.Compiler.Order.{
  Order, less, same, more, str_compare, reversed, is_same, at_most, is_less, str_compare-reversed,
  str_eq-is_same, less-at_most, occurs, AllFrom, Sorted, insert, sort,
}

pub Order-cases : (o : Order) → (o ≡ less) ⊎ ((o ≡ same) ⊎ (o ≡ more))
Order-cases less = inl refl
Order-cases same = inr (inl refl)
Order-cases more = inr (inr refl)

pub same-eq : (s t : Str) → str_compare s t ≡ same → s ≡ t
same-eq s t h = (str_eq_iff s t).0 (str_eq-is_same s t ∙ ap is_same h)

at_most_trans :
    (s t u : Str)
    → at_most (str_compare s t) ≡ true
    → at_most (str_compare t u) ≡ true
    → at_most (str_compare s u) ≡ true
at_most_trans s t u h k = elim (Order-cases (str_compare s t)) [
  | inl e ↦ less_at_most (str_compare s u) (less-at_most s t u (ap is_less e) k)
  | inr (inl e) ↦ rw (same-eq s t e) k
  | inr (inr e) ↦ ground (arith, e, h)
]
  where
    less_at_most : (o : Order) → is_less o ≡ true → at_most o ≡ true
    less_at_most less h = refl
    less_at_most same h = refl
    less_at_most more h = h

AllFrom-trans :
    (a b : Str) (ys : List Str) → at_most (str_compare a b) ≡ true → AllFrom b ys → AllFrom a ys
AllFrom-trans a b [] h p = tt
AllFrom-trans a b (y ∷ ys) h p = (at_most_trans a b y h p.0, AllFrom-trans a b ys h p.1)

-- A text below all others in a list is not in it.
occurs-AllFrom :
    (a b : Str) (ys : List Str) → is_less (str_compare a b) ≡ true → AllFrom b ys → occurs a ys ≡ 0
unfolding occurs
occurs-AllFrom a b [] h p = refl
occurs-AllFrom a b (y ∷ ys) h p = ground (
  arith,
  str_eq-is_same a y,
  apart (str_compare a y) (less-at_most a b y h p.0),
  occurs-AllFrom a b ys h p.1,
)
  where
    apart : (o : Order) → is_less o ≡ true → is_same o ≡ false
    apart less h = refl
    apart same h = sym h
    apart more h = refl

occurs_first :
    (a b : Str) (ys : List Str) → str_compare a b ≡ less → AllFrom b ys → occurs a (b ∷ ys) ≡ 0
unfolding occurs
occurs_first a b ys h p = rw (str_eq-is_same a b, h) (occurs-AllFrom a b ys (ap is_less h) p)

pub occurs_absent :
    (x a b : Str) (ys : List Str)
    → str_eq x a ≡ true
    → str_compare a b ≡ less
    → AllFrom b ys
    → occurs x (b ∷ ys) ≡ 0
occurs_absent x a b ys e h p =
    subst (λ y. occurs y (b ∷ ys) ≡ 0) (sym ((str_eq_iff x a).0 e)) (occurs_first a b ys h p)

AllFrom-insert :
    (c a : Str) (ys : List Str)
    → at_most (str_compare c a) ≡ true
    → AllFrom c ys
    → AllFrom c (insert a ys)
unfolding insert
AllFrom-insert c a [] h p = (h, tt)
AllFrom-insert c a (b ∷ ys) h p = elim (Bool-cases (at_most (str_compare a b))) [
  | inl e ↦ rw e (h, p)
  | inr e ↦ rw e (p.0, AllFrom-insert c a ys h p.1)
]

Sorted-insert : (a : Str) (ys : List Str) → Sorted ys → Sorted (insert a ys)
unfolding insert
Sorted-insert a [] p = (tt, tt)
Sorted-insert a (b ∷ ys) p = elim (Bool-cases (at_most (str_compare a b))) [
  | inl e ↦ rw e ((e, AllFrom-trans a b ys e p.0), p)
  | inr e ↦ rw e (
    AllFrom-insert b a ys (ap at_most (str_compare-reversed a b) ∙ flips (str_compare a b) e) p.0,
    Sorted-insert a ys p.1,
  )
]
  where
    flips : (o : Order) → at_most o ≡ false → at_most (reversed o) ≡ true
    flips less h = sym h
    flips same h = refl
    flips more h = refl

pub Sorted-sort : (xs : List Str) → Sorted (sort xs)
unfolding sort
Sorted-sort [] = tt
Sorted-sort (a ∷ xs) = Sorted-insert a (sort xs) (Sorted-sort xs)

occurs-insert : (x a : Str) (ys : List Str) → occurs x (insert a ys) ≡ occurs x (a ∷ ys)
unfolding insert occurs
occurs-insert x a [] = refl
occurs-insert x a (b ∷ ys) = ground (arith, occurs-insert x a ys)

pub occurs-sort : (x : Str) (xs : List Str) → occurs x (sort xs) ≡ occurs x xs
unfolding sort occurs
occurs-sort x [] = refl
occurs-sort x (a ∷ xs) = occurs-insert x a (sort xs) ∙ ground (arith, occurs-sort x xs)

-- ===== src/Compiler/Order.antt =====
-- The order of strings (`std::string::compare`), and sorting by it.
use rangexx.Base.{
  ℕ, suc, ◌≡◌, refl, Bool, true, false, List, [], ◌∷◌, All, Str, str_eq, if◌then◌else◌, arith, ltb,
}

pub data Order : Type 0 where
  less same more : Order

unfoldable pub str_compare : Str → Str → Order
str_compare [] [] = same
str_compare [] (b ∷ t) = less
str_compare (a ∷ s) [] = more
str_compare (a ∷ s) (b ∷ t) = if ltb a b then less else if ltb b a then more else str_compare s t

abbrev pub reversed : Order → Order
reversed less = more
reversed same = same
reversed more = less

abbrev pub is_same : Order → Bool
is_same same = true
is_same _ = false

abbrev pub at_most : Order → Bool
at_most more = false
at_most _ = true

abbrev pub is_less : Order → Bool
is_less less = true
is_less _ = false

pub str_compare-reversed : (s t : Str) → str_compare t s ≡ reversed (str_compare s t)
unfolding str_compare
str_compare-reversed [] [] = refl
str_compare-reversed [] (b ∷ t) = refl
str_compare-reversed (a ∷ s) [] = refl
str_compare-reversed (a ∷ s) (b ∷ t) = ground (arith, str_compare-reversed s t)

pub str_eq-is_same : (s t : Str) → str_eq s t ≡ is_same (str_compare s t)
unfolding str_compare str_eq
str_eq-is_same [] [] = refl
str_eq-is_same [] (b ∷ t) = refl
str_eq-is_same (a ∷ s) [] = refl
str_eq-is_same (a ∷ s) (b ∷ t) = ground (arith, str_eq-is_same s t)

pub less-at_most :
    (s t u : Str)
    → is_less (str_compare s t) ≡ true
    → at_most (str_compare t u) ≡ true
    → is_less (str_compare s u) ≡ true
unfolding str_compare
less-at_most [] [] u h k = ground (arith, h)
less-at_most [] (b ∷ t) [] h k = k
less-at_most [] (b ∷ t) (c ∷ u) h k = refl
less-at_most (a ∷ s) [] u h k = ground (arith, h)
less-at_most (a ∷ s) (b ∷ t) [] h k = k
less-at_most (a ∷ s) (b ∷ t) (c ∷ u) h k = ground (arith, h, k, less-at_most s t u)

-- How often the text is in the list.
unfoldable pub occurs : Str → List Str → ℕ
occurs x [] = 0
occurs x (y ∷ ys) = let rest = occurs x ys in if str_eq x y then suc rest else rest

abbrev pub AllFrom : Str → List Str → Type 0
AllFrom a ys = All (λ y. at_most (str_compare a y) ≡ true) ys

abbrev pub Sorted : List Str → Type 0
Sorted [] = Unit
Sorted (a ∷ ys) = AllFrom a ys × Sorted ys

-- `std::sort`: there is one sorted list with the same elements.
unfoldable pub insert : Str → List Str → List Str
insert a [] = a ∷ []
insert a (b ∷ ys) =
    let rest = insert a ys in if at_most (str_compare a b) then a ∷ b ∷ ys else b ∷ rest

unfoldable pub sort : List Str → List Str
unfolding insert
sort [] = []
sort (a ∷ ys) = insert a (sort ys)

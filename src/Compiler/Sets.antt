-- ===== src/Compiler/Sets.antt =====
-- The set operations of the standard library on sorted lists, and the visitor's use of them
-- (`ASTUnion`, `ASTDifference`, `ASTIntersection`).
use rangexx.Base.{List, [], ◌∷◌, Str}
use rangexx.Compiler.Order.{less, same, more, str_compare, sort}

-- One round of the loops below: what is done with the rest of the first list, once its next element
-- is left behind, and the second list.
unfoldable pub union_from : Str → (List Str → List Str) → List Str → List Str
unfolding str_compare
union_from a rest [] = a ∷ rest []
union_from a rest (b ∷ ys) = elim (str_compare a b) [
  | less ↦ a ∷ rest (b ∷ ys)
  | same ↦ a ∷ rest ys
  | more ↦ b ∷ union_from a rest ys
]

unfoldable pub set_union : List Str → List Str → List Str
unfolding union_from
set_union [] ys = ys
set_union (a ∷ xs) ys = union_from a (set_union xs) ys

unfoldable pub difference_from : Str → (List Str → List Str) → List Str → List Str
unfolding str_compare
difference_from a rest [] = a ∷ rest []
difference_from a rest (b ∷ ys) = elim (str_compare a b) [
  | less ↦ a ∷ rest (b ∷ ys)
  | same ↦ rest ys
  | more ↦ difference_from a rest ys
]

unfoldable pub set_difference : List Str → List Str → List Str
unfolding difference_from
set_difference [] ys = []
set_difference (a ∷ xs) ys = difference_from a (set_difference xs) ys

unfoldable pub intersection_from : Str → (List Str → List Str) → List Str → List Str
unfolding str_compare
intersection_from a rest [] = []
intersection_from a rest (b ∷ ys) = elim (str_compare a b) [
  | less ↦ rest (b ∷ ys)
  | same ↦ a ∷ rest ys
  | more ↦ intersection_from a rest ys
]

unfoldable pub set_intersection : List Str → List Str → List Str
unfolding intersection_from
set_intersection [] ys = []
set_intersection (a ∷ xs) ys = intersection_from a (set_intersection xs) ys

-- The children of the two sides, and those of the node.
unfoldable pub unite : List Str → List Str → List Str
unfolding sort set_union
unite lchildren rchildren = set_union (sort lchildren) (sort rchildren)

unfoldable pub subtract : List Str → List Str → List Str
unfolding sort set_difference
subtract lchildren rchildren = set_difference (sort lchildren) (sort rchildren)

unfoldable pub intersect : List Str → List Str → List Str
unfolding sort set_intersection
intersect lchildren rchildren = set_intersection (sort lchildren) (sort rchildren)

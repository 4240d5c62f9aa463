-- ===== src/Compiler/Counts.antt =====
-- How often a text is in a union, a difference and an intersection.
use Prim.Native.Nat.{min}
use rangexx.Base.{◌-◌, ◌≡◌, sym, ◌∙◌, ap, inl, inr, max, true, List, [], ◌∷◌, Str, str_eq, arith}
use rangexx.Compiler.Order.{
  Order, less, same, more, reversed, str_compare, str_compare-reversed, occurs, Sorted, sort,
}
use rangexx.Compiler.Sorting.{Order-cases, same-eq, occurs_absent, Sorted-sort, occurs-sort}
use rangexx.Compiler.Sets.{
  union_from, set_union, difference_from, set_difference, intersection_from, set_intersection,
  unite, subtract, intersect,
}

more-less : (a b : Str) → str_compare a b ≡ more → str_compare b a ≡ less
more-less a b h = str_compare-reversed a b ∙ ap reversed h

abbrev pick {ℓ} : {A : Type ℓ} → Order → A → A → A → A
pick less x y z = x
pick same x y z = y
pick more x y z = z

union_from-pick :
    (a b : Str) (rest : List Str → List Str) (ys : List Str)
    → union_from a rest (b ∷ ys)
      ≡ pick (str_compare a b) (a ∷ rest (b ∷ ys)) (a ∷ rest ys) (b ∷ union_from a rest ys)
unfolding union_from
union_from-pick a b rest ys = ground arith

difference_from-pick :
    (a b : Str) (rest : List Str → List Str) (ys : List Str)
    → difference_from a rest (b ∷ ys)
      ≡ pick (str_compare a b) (a ∷ rest (b ∷ ys)) (rest ys) (difference_from a rest ys)
unfolding difference_from
difference_from-pick a b rest ys = ground arith

intersection_from-pick :
    (a b : Str) (rest : List Str → List Str) (ys : List Str)
    → intersection_from a rest (b ∷ ys)
      ≡ pick (str_compare a b) (rest (b ∷ ys)) (a ∷ rest ys) (intersection_from a rest ys)
unfolding intersection_from
intersection_from-pick a b rest ys = ground arith

module _ (x : Str) where
  -- What is known of the two first elements, for each outcome of their comparison.
  record Heads (a b : Str) (xs ys : List Str) : Type 0 where
    when_less : str_compare a b ≡ less → str_eq x a ≡ true → occurs x (b ∷ ys) ≡ 0
    when_same : str_compare a b ≡ same → str_eq x a ≡ str_eq x b
    when_more : str_compare a b ≡ more → str_eq x b ≡ true → occurs x (a ∷ xs) ≡ 0

  heads : (a b : Str) (xs ys : List Str) → Sorted (a ∷ xs) → Sorted (b ∷ ys) → Heads a b xs ys
  heads a b xs ys p q = record {
    when_less = λ h e. occurs_absent x a b ys e h q.0;
    when_same = λ h. ap (str_eq x) (same-eq a b h);
    when_more = λ h e. occurs_absent x b a xs e (more-less a b h) p.0;
  }

  module _ (a : Str) (xs : List Str) (p : Sorted (a ∷ xs))
      (ih : (ys : List Str)
        → Sorted ys
        → occurs x (set_union xs ys) ≡ max (occurs x xs) (occurs x ys)) where
    occurs-union_from :
        (ys : List Str)
        → Sorted ys
        → occurs x (union_from a (set_union xs) ys) ≡ max (occurs x (a ∷ xs)) (occurs x ys)
    unfolding occurs
    occurs-union_from [] q = unfold union_from in ground (arith, ih [] tt)
    occurs-union_from (b ∷ ys) q =
        let k = heads a b xs ys p q in
        ap (occurs x) (union_from-pick a b (set_union xs) ys)
        ∙ elim (Order-cases (str_compare a b)) [
          | inl e ↦ rw e (ground (arith, ih (b ∷ ys) q, k.when_less e))
          | inr (inl e) ↦ rw e (ground (arith, ih ys q.1, k.when_same e))
          | inr (inr e) ↦ rw e (ground (arith, occurs-union_from ys q.1, k.when_more e))
        ]

  occurs-set_union :
      (xs ys : List Str)
      → Sorted xs
      → Sorted ys
      → occurs x (set_union xs ys) ≡ max (occurs x xs) (occurs x ys)
  unfolding set_union
  occurs-set_union [] ys p q = unfold occurs in omega arith
  occurs-set_union (a ∷ xs) ys p q =
      occurs-union_from a xs p (λ zs r. occurs-set_union xs zs p.1 r) ys q

  module _ (a : Str) (xs : List Str) (p : Sorted (a ∷ xs))
      (ih : (ys : List Str)
        → Sorted ys
        → occurs x (set_difference xs ys) ≡ occurs x xs - occurs x ys) where
    occurs-difference_from :
        (ys : List Str)
        → Sorted ys
        → occurs x (difference_from a (set_difference xs) ys) ≡ occurs x (a ∷ xs) - occurs x ys
    unfolding occurs
    occurs-difference_from [] q = unfold difference_from in ground (arith, ih [] tt)
    occurs-difference_from (b ∷ ys) q =
        let k = heads a b xs ys p q in
        ap (occurs x) (difference_from-pick a b (set_difference xs) ys)
        ∙ elim (Order-cases (str_compare a b)) [
          | inl e ↦ rw e (ground (arith, ih (b ∷ ys) q, k.when_less e))
          | inr (inl e) ↦ rw e (ground (arith, ih ys q.1, k.when_same e))
          | inr (inr e) ↦ rw e (ground (arith, occurs-difference_from ys q.1, k.when_more e))
        ]

  occurs-set_difference :
      (xs ys : List Str)
      → Sorted xs
      → Sorted ys
      → occurs x (set_difference xs ys) ≡ occurs x xs - occurs x ys
  unfolding set_difference
  occurs-set_difference [] ys p q = unfold occurs in omega arith
  occurs-set_difference (a ∷ xs) ys p q =
      occurs-difference_from a xs p (λ zs r. occurs-set_difference xs zs p.1 r) ys q

  module _ (a : Str) (xs : List Str) (p : Sorted (a ∷ xs))
      (ih : (ys : List Str)
        → Sorted ys
        → occurs x (set_intersection xs ys) ≡ min (occurs x xs) (occurs x ys)) where
    occurs-intersection_from :
        (ys : List Str)
        → Sorted ys
        → occurs x (intersection_from a (set_intersection xs) ys)
          ≡ min (occurs x (a ∷ xs)) (occurs x ys)
    unfolding occurs
    occurs-intersection_from [] q = unfold intersection_from in ground (arith, ih [] tt)
    occurs-intersection_from (b ∷ ys) q =
        let k = heads a b xs ys p q in
        ap (occurs x) (intersection_from-pick a b (set_intersection xs) ys)
        ∙ elim (Order-cases (str_compare a b)) [
          | inl e ↦ rw e (ground (arith, ih (b ∷ ys) q, k.when_less e))
          | inr (inl e) ↦ rw e (ground (arith, ih ys q.1, k.when_same e))
          | inr (inr e) ↦ rw e (ground (arith, occurs-intersection_from ys q.1, k.when_more e))
        ]

  occurs-set_intersection :
      (xs ys : List Str)
      → Sorted xs
      → Sorted ys
      → occurs x (set_intersection xs ys) ≡ min (occurs x xs) (occurs x ys)
  unfolding set_intersection
  occurs-set_intersection [] ys p q = unfold occurs in omega arith
  occurs-set_intersection (a ∷ xs) ys p q =
      occurs-intersection_from a xs p (λ zs r. occurs-set_intersection xs zs p.1 r) ys q

  -- Whatever the two sides of a union, a difference or an intersection expand to, in any order and with
  -- repetitions: a text is in the result as often as in the side that has it more often; as often as
  -- the left side has it more often than the right one; and as often as in the side that has it less
  -- often.
  pub set_operations_lem :
      (ls rs : List Str)
      → (occurs x (unite ls rs) ≡ max (occurs x ls) (occurs x rs))
        × (occurs x (subtract ls rs) ≡ occurs x ls - occurs x rs)
        × (occurs x (intersect ls rs) ≡ min (occurs x ls) (occurs x rs))
  unfolding unite subtract intersect
  set_operations_lem ls rs =
      let l = Sorted-sort ls in
      let r = Sorted-sort rs in
      rw (sym (occurs-sort x ls), sym (occurs-sort x rs))
        (
          occurs-set_union (sort ls) (sort rs) l r,
          occurs-set_difference (sort ls) (sort rs) l r,
          occurs-set_intersection (sort ls) (sort rs) l r,
        )

-- ===== src/Compiler/Unique.antt =====
-- What `expand` gives, and how a regular expression splits a list.
use Prim.Native.Nat.{min}
use rangexx.Base.{
  ◌+◌, ◌≤◌, ◌≡◌, refl, sym, ◌∙◌, ap, inl, inr, Bool, true, false, not, Option, none, some, List, [],
  ◌∷◌, Str, str_eq, str_eq_iff, arith, Bool-cases,
}
use rangexx.Compiler.Order.{
  Order, less, same, more, str_compare, at_most, is_same, str_eq-is_same, occurs, AllFrom, Sorted,
  sort,
}
use rangexx.Compiler.Sorting.{occurs_absent, Sorted-sort, occurs-sort}
use rangexx.Search.Reach.{In}
use rangexx.Compiler.Resolved.{Gathered, Lost, CollectSpec, collect_lem}
use rangexx.Compiler.Handlers.{
  Graph, regex_filter, filter_intersection, filter_difference, collect, unique, unique_from,
  sort_unique, expand,
}

strict :
    (a b : Str) → at_most (str_compare a b) ≡ true → str_eq a b ≡ false → str_compare a b ≡ less
strict a b h e = go (str_compare a b) h (sym (str_eq-is_same a b) ∙ e)
  where
    go : (o : Order) → at_most o ≡ true → is_same o ≡ false → o ≡ less
    go less h e = refl
    go same h e = ground (arith, e)
    go more h e = ground (arith, h)

occurs-unique_from :
    (x a : Str) (ys : List Str)
    → Sorted (a ∷ ys)
    → occurs x (unique_from a ys) ≡ min 1 (occurs x (a ∷ ys))
unfolding unique_from occurs
occurs-unique_from x a [] p = ground arith
occurs-unique_from x a (b ∷ ys) p = elim (Bool-cases (str_eq a b)) [
  | inl e ↦ rw e (
      occurs-unique_from x a ys (p.0.1, p.1.1)
      ∙ ground (arith, ap (str_eq x) ((str_eq_iff a b).0 e)))
  | inr e ↦ rw e (
      ground (
        arith,
        occurs-unique_from x b ys p.1,
        λ (h : str_eq x a ≡ true). occurs_absent x a b ys h (strict a b p.0.0 e) p.1.0,
      ))
]

AllFrom-unique_from :
    (c a : Str) (ys : List Str) → AllFrom c (a ∷ ys) → AllFrom c (unique_from a ys)
unfolding unique_from
AllFrom-unique_from c a [] p = p
AllFrom-unique_from c a (b ∷ ys) p = elim (Bool-cases (str_eq a b)) [
  | inl e ↦ rw e (AllFrom-unique_from c a ys (p.0, p.1.1))
  | inr e ↦ rw e (p.0, AllFrom-unique_from c b ys p.1)
]

Sorted-unique_from : (a : Str) (ys : List Str) → Sorted (a ∷ ys) → Sorted (unique_from a ys)
unfolding unique_from
Sorted-unique_from a [] p = p
Sorted-unique_from a (b ∷ ys) p = elim (Bool-cases (str_eq a b)) [
  | inl e ↦ rw e (Sorted-unique_from a ys (p.0.1, p.1.1))
  | inr e ↦ rw e (AllFrom-unique_from a b ys p.0, Sorted-unique_from b ys p.1)
]

-- A list without repetition that has the same elements as `xs`, in order.
pub record Distilled (xs ys : List Str) : Type 0 where
  pub sorted : Sorted ys
  pub once : (x : Str) → occurs x ys ≡ min 1 (occurs x xs)

unique-Distilled : (xs : List Str) → Distilled xs (unique (sort xs))
unique-Distilled xs = record {
  sorted = sorted (sort xs) (Sorted-sort xs);
  once = λ x. once x (sort xs) (Sorted-sort xs) ∙ ap (min 1) (occurs-sort x xs);
}
  where
    sorted : (ys : List Str) → Sorted ys → Sorted (unique ys)
    sorted [] p = unfold unique in tt
    sorted (a ∷ ys) p = unfold unique in Sorted-unique_from a ys p

    once : (x : Str) (ys : List Str) → Sorted ys → occurs x (unique ys) ≡ min 1 (occurs x ys)
    once x [] p = unfold unique occurs in refl
    once x (a ∷ ys) p = unfold unique in occurs-unique_from x a ys p

-- The names at the forward edges of the nodes that the children stand for, each once, in order; or a
-- child that stands for no node.
pub record Expansion (graph : Graph) (prefix : Str) (children ys : List Str) : Type 0 where
  pub sorted : Sorted ys
  pub once : (x : Str) → occurs x ys ≤ 1
  pub names : Gathered (λ v. v.forward_edges) graph prefix children ys

-- After a key expansion the children are values, which are not looked up.
abbrev pub ExpandSpec : Bool → Graph → Str → List Str → Option (List Str) → Type 0
ExpandSpec true graph prefix children none = ⊥
ExpandSpec true graph prefix children (some ys) = Distilled children ys
ExpandSpec false graph prefix children none =
    (child : Str) × (In child children × Lost graph prefix child)
ExpandSpec false graph prefix children (some ys) = Expansion graph prefix children ys

Expansion-Distilled :
    (graph : Graph) (prefix : Str) (children xs ys : List Str)
    → Gathered (λ v. v.forward_edges) graph prefix children xs
    → Distilled xs ys
    → Expansion graph prefix children ys
Expansion-Distilled graph prefix children xs ys p d = record {
  sorted = d.sorted;
  once = λ x. omega (arith, d.once x);
  names = record {
    complete = λ child i.
        let (v, (r, all)) = p.complete child i in (v, (r, λ x h. omega (arith, d.once x, all x h)));
    sound = λ x h. p.sound x (omega (arith, h, d.once x));
  };
}

-- A child is looked up under its name with the prefix, if it does not begin with it already and there
-- is such a node, else under its own. After a key expansion the result has each value among the
-- children exactly once, in the order of strings. Else it fails exactly if there is no node for some
-- child, and has otherwise each name at the forward edges of the nodes for the children exactly once,
-- and nothing else, in the order of strings.
pub expand_lem :
    (key_expand : Bool) (graph : Graph) (prefix : Str) (children : List Str)
    → ExpandSpec key_expand graph prefix children (expand key_expand graph prefix children)
unfolding expand
expand_lem true graph prefix children = unique-Distilled children
expand_lem false graph prefix children =
    by_result (collect (λ v. v.forward_edges) graph prefix children)
      (collect_lem (λ v. v.forward_edges) graph prefix children)
  where
    by_result :
        (o : Option (List Str))
        → CollectSpec (λ v. v.forward_edges) graph prefix children o
        → ExpandSpec false graph prefix children (sort_unique o)
    by_result none h = h
    by_result (some xs) h =
        Expansion-Distilled graph prefix children xs (unique (sort xs)) h (unique-Distilled xs)

occurs-regex_filter :
    (x : Str) (found : Str → Bool) (ws : List Str)
    → occurs x (regex_filter found true ws) + occurs x (regex_filter found false ws) ≡ occurs x ws
unfolding occurs regex_filter
occurs-regex_filter x found [] = omega arith
occurs-regex_filter x found (w ∷ ws) = ground (arith, occurs-regex_filter x found ws)

-- Both are errors, or every text of the list is in the one or in the other as often as in the list.
abbrev pub SplitSpec : List Str → Option (List Str) → Option (List Str) → Type 0
SplitSpec ls none none = Unit
SplitSpec ls none (some ys) = ⊥
SplitSpec ls (some xs) none = ⊥
SplitSpec ls (some xs) (some ys) = (x : Str) → occurs x xs + occurs x ys ≡ occurs x ls

-- An intersection and a difference with the same regular expression are both errors, if it cannot be
-- compiled, or split the left side between them: each text is in the two together as often as there.
pub filter_split :
    (compile : Str → Option (Str → Bool)) (word : Str) (positive : Bool) (ls : List Str)
    → SplitSpec ls
        (filter_intersection compile word positive ls)
        (filter_difference compile word positive ls)
unfolding filter_intersection filter_difference
filter_split compile word positive ls = by_result positive (compile word)
  where
    by_result :
        (positive : Bool) (o : Option (Str → Bool))
        → SplitSpec ls
            (elim o as (λ y. Option (List Str)) [
              | none ↦ none
              | some found ↦ some (regex_filter found positive (sort ls))
            ])
            (elim o as (λ y. Option (List Str)) [
              | none ↦ none
              | some found ↦ some (regex_filter found (not positive) (sort ls))
            ])
    by_result positive none = tt
    by_result true (some found) = λ x. occurs-regex_filter x found (sort ls) ∙ occurs-sort x ls
    by_result false (some found) =
        λ x. omega (arith, occurs-regex_filter x found (sort ls), occurs-sort x ls)

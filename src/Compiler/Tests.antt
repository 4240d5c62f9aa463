-- ===== src/Compiler/Tests.antt =====
-- Runs of the expansion, and the theorems at concrete lists.
use Prim.Native.Nat.{min}
use rangexx.Base.{
  if◌then◌else◌, ◌-◌, ◌≡◌, refl, max, Bool, false, Option, none, some, [], ◌∷◌, Str, codes, str_eq,
}
use rangexx.Compiler.Order.{str_compare, occurs, sort, insert}
use rangexx.Compiler.Sets.{
  union_from, set_union, difference_from, set_difference, intersection_from, set_intersection,
  unite, subtract, intersect,
}
use rangexx.Compiler.Counts.{set_operations_lem}
use rangexx.Compiler.Handlers.{
  Graph, collect, prefix_child, unique, unique_from, expand, brace_expand,
}
use rangexx.Compiler.Unique.{ExpandSpec, expand_lem}

abbrev foo : Str
foo = codes "foo"

abbrev bar : Str
bar = codes "bar"

abbrev baz : Str
baz = codes "baz"

set_run :
    (unite (foo ∷ bar ∷ []) (baz ∷ foo ∷ []) ≡ bar ∷ baz ∷ foo ∷ [])
    × (subtract (foo ∷ bar ∷ []) (baz ∷ foo ∷ []) ≡ bar ∷ [])
    × (intersect (foo ∷ bar ∷ []) (baz ∷ foo ∷ []) ≡ foo ∷ [])
unfolding unite subtract intersect set_union union_from set_difference difference_from
    set_intersection intersection_from sort insert str_compare
set_run = (refl, refl, refl)

set_operations_lem_example :
    (occurs foo (unite (foo ∷ bar ∷ []) (baz ∷ foo ∷ []))
      ≡ max (occurs foo (foo ∷ bar ∷ [])) (occurs foo (baz ∷ foo ∷ [])))
    × (occurs foo (subtract (foo ∷ bar ∷ []) (baz ∷ foo ∷ []))
        ≡ occurs foo (foo ∷ bar ∷ []) - occurs foo (baz ∷ foo ∷ []))
    × (occurs foo (intersect (foo ∷ bar ∷ []) (baz ∷ foo ∷ []))
        ≡ min (occurs foo (foo ∷ bar ∷ [])) (occurs foo (baz ∷ foo ∷ [])))
set_operations_lem_example = set_operations_lem foo (foo ∷ bar ∷ []) (baz ∷ foo ∷ [])

-- The cluster `e#foo` has the hosts `bar` and `baz`, and `e#bar` has `bar` again.
abbrev clusters : Graph
clusters name =
    if str_eq name (codes "e#foo")
    then some (record { forward_edges = baz ∷ bar ∷ []; reverse_edges = []; tags = [] })
    else if str_eq name (codes "e#bar")
    then some (record { forward_edges = bar ∷ []; reverse_edges = []; tags = [] })
    else none

expand_run :
    (expand false clusters (codes "e#") (foo ∷ bar ∷ []) ≡ some (bar ∷ baz ∷ []))
    × (expand false clusters (codes "e#") (foo ∷ baz ∷ []) ≡ none)
unfolding expand collect prefix_child unique unique_from sort insert str_compare str_eq
expand_run = (refl, refl)

expand_lem_example :
    ExpandSpec false clusters
      (codes "e#")
      (foo ∷ bar ∷ [])
      (expand false clusters (codes "e#") (foo ∷ bar ∷ []))
expand_lem_example = expand_lem false clusters (codes "e#") (foo ∷ bar ∷ [])

brace_run : brace_expand (foo ∷ []) (bar ∷ baz ∷ []) [] ≡ codes "foobar" ∷ codes "foobaz" ∷ []
unfolding brace_expand
brace_run = refl

-- An expression that is a text finds the texts that are equal to it.
abbrev exact : Str → Option (Str → Bool)
exact word = some (str_eq word)

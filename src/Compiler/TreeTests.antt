-- ===== src/Compiler/TreeTests.antt =====
-- Runs of the visitor on trees, and the theorems on them there.
use rangexx.Base.{
  ℕ, ◌+◌, ◌*◌, ◌-◌, ◌<◌, ◌≡◌, refl, ap, Option, none, some, [], ◌∷◌, Str, codes, str_eq, elem,
  if◌then◌else◌, arith, ltb,
}
use rangexx.Base.Results.{ok}
use rangexx.Search.Loop.{seen, search, push_all}
use rangexx.Node.Tags.{find}
use rangexx.Graph.Interface.{GraphInterface}
use rangexx.Api.Names.{first_of, rest_of}
use rangexx.Api.Sample.{prod, web, prod_web, h1, h2, all, sample, sample-Alike, reverse-Finite}
use rangexx.Api.Found.{Alike, Finite}
use rangexx.Compiler.Syntax.{Ast}
use rangexx.Compiler.Sequence.{
  word, is_digit, is_alpha, scan, before_alpha, from_alpha, close_bounds, sequence_bounds, sequence,
  c_str, digits, zeros, padded, take, child_text, count_up,
}
use rangexx.Compiler.Count.{IsNarrow}
use rangexx.Compiler.Handlers
use rangexx.Compiler.Handlers.{prefix_child, collect, unique, unique_from, brace_expand}
use rangexx.Compiler.Order.{str_compare, sort, insert}
use rangexx.Compiler.Sets.{unite, set_union, union_from}
use rangexx.Compiler.Admins.{AdminsSpec, find_admins_lem}
use rangexx.Compiler.Admin.{nearest_admins, find_admins, add_admins}
use rangexx.Compiler.Visitor.{Libraries, visit}
use rangexx.Compiler.Faults.{Avoids, Every}
use rangexx.Compiler.Sound.{is_bad_get, is_fuel, typed, ending, visit-typed, visit-ends}

-- A cast that reads digits only.
abbrev number : Str → ℕ → Option ℕ
number [] n = if ltb n word then some n else none
number (c ∷ s) n = let rest = number s (10 * n + (c - 48)) in if is_digit c then rest else none

abbrev cast : Str → Option ℕ
cast [] = none
cast (c ∷ s) = number (c ∷ s) 0

number-narrow : (s : Str) (m n : ℕ) → number s m ≡ some n → n < word
number-narrow [] m n h = ground (arith, h)
number-narrow (c ∷ s) m n h = ground (arith, h, number-narrow s (10 * m + (c - 48)) n)

cast-IsNarrow : IsNarrow cast
cast-IsNarrow [] n h = absurd (ground (arith, h))
cast-IsNarrow (c ∷ s) n h = number-narrow (c ∷ s) 0 n h

abbrev libraries : Libraries
libraries = record { compile = λ text. some (str_eq text); lexical_cast = cast }

sequence_run :
    sequence cast 9 (codes "foo08") (codes "foo10x")
    ≡ ok (codes "foo08x" ∷ codes "foo09x" ∷ codes "foo10x" ∷ [])
unfolding sequence sequence_bounds scan close_bounds before_alpha from_alpha is_digit is_alpha
    first_of rest_of str_eq count_up child_text c_str padded digits zeros take
sequence_run = refl

-- `{foo1..foo2}` as a tree, with `+` and the hosts of a cluster.
abbrev tree : Ast
tree =
    Ast.union (Ast.sequence (Ast.word (codes "x1")) (Ast.word (codes "x2")))
      (Ast.expand (Ast.group (Ast.word web)))

visit_run :
    visit libraries sample 9 prod (codes "prod#") tree ≡ ok (h1 ∷ codes "x1" ∷ codes "x2" ∷ [])
unfolding visit sequence sequence_bounds scan close_bounds before_alpha from_alpha is_digit is_alpha
    first_of rest_of str_eq count_up child_text c_str padded digits zeros take unite set_union
    union_from sort insert str_compare Handlers.expand collect prefix_child unique unique_from elem
visit_run = refl

-- The cluster has an admin.
abbrev guarded : GraphInterface Str
guarded = record sample {
  node = record (sample.node) {
    tags = λ s. if str_eq s prod_web then (codes "ADMIN_NODE", h2 ∷ []) ∷ [] else [];
  };
}

admin_run : visit libraries guarded 9 prod (codes "prod#") (Ast.admin (Ast.word h1)) ≡ ok (h2 ∷ [])
unfolding visit find_admins nearest_admins add_admins prefix_child search seen elem str_eq push_all
    find
admin_run = refl

tree-Every : Every typed tree
unfolding Every
tree-Every = (((codes "x1", refl), (codes "x2", refl)), tt)

visit-typed_example : Avoids is_bad_get (visit libraries sample 9 prod (codes "prod#") tree)
visit-typed_example = visit-typed libraries sample 9 prod (codes "prod#") tree tree-Every

ample-Finite : Finite sample sample.node.reverse_edges word all
ample-Finite = record {
  closed = reverse-Finite.closed;
  looked_up = reverse-Finite.looked_up;
  enough = omega (arith, reverse-Finite.enough);
}

tree_is_ending : Every (ending libraries) tree
unfolding Every sequence_bounds scan close_bounds before_alpha from_alpha is_digit is_alpha first_of
    rest_of str_eq
tree_is_ending = ((λ b e. ground (arith, e)), tt)

visit-ends_example : Avoids is_fuel (visit libraries sample word prod (codes "prod#") tree)
visit-ends_example =
    visit-ends libraries sample word prod (codes "prod#") sample-Alike all ample-Finite
      cast-IsNarrow (omega arith) tree tree_is_ending

guarded-Alike : Alike guarded.node
guarded-Alike = record {
  type = sample-Alike.type;
  forward = sample-Alike.forward;
  reverse = sample-Alike.reverse;
  tags = λ u v e. ap guarded.node.tags e;
}

guarded-Finite : Finite guarded guarded.node.reverse_edges 9 all
guarded-Finite = record {
  closed = reverse-Finite.closed;
  looked_up = reverse-Finite.looked_up;
  enough = reverse-Finite.enough;
}

find_admins_lem_example :
    AdminsSpec guarded 9
      (codes "prod#")
      (h1 ∷ [])
      []
      (find_admins guarded 9 (codes "prod#") (h1 ∷ []) [])
find_admins_lem_example =
    find_admins_lem guarded 9 (codes "prod#") guarded-Alike all guarded-Finite (h1 ∷ [])

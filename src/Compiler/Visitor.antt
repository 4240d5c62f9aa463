-- ===== src/Compiler/Visitor.antt =====
-- librange/compiler/expanding_visitor.cpp, expanding_visitor.h: the visitor on the whole tree, with the
-- children that `FetchChildrenVisitor` takes from a node afterwards.
use rangexx.Base.{ℕ, Bool, true, false, Option, none, some, List, [], ◌∷◌, Str}
use rangexx.Base.Results.{Result, ok, throw, ◌>>=◌, invalid_range_expression, Kind}
use rangexx.Graph.Interface.{GraphInterface}
use rangexx.Compiler.Syntax.{Ast, Args, as_word, as_regex}
use rangexx.Compiler.Sets.{unite, subtract, intersect}
use rangexx.Compiler.Handlers.{filter_intersection, filter_difference, prefix_child, brace_expand}
use rangexx.Compiler.Handlers
use rangexx.Compiler.Sequence.{sequence}
use rangexx.Compiler.Admin.{names_of, resolved, find_admins}

abbrev pub is_key_expand : Ast → Bool
is_key_expand (Ast.key_expand l r) = true
is_key_expand _ = false

-- A regular expression that cannot be compiled.
abbrev pub compiled : Option (List Str) → Result (List Str)
compiled none = throw invalid_range_expression []
compiled (some ws) = ok ws

abbrev pub bad_get : {A : Type 0} → Result A
bad_get = throw Kind.bad_get []

-- `argument_vecs` has no empty lists.
abbrev pub add_argument : List Str → List (List Str) → List (List Str)
add_argument [] vecs = vecs
add_argument (c ∷ cs) vecs = (c ∷ cs) ∷ vecs

-- What is not under src/: how a regular expression is compiled, and `lexical_cast`.
pub record Libraries : Type 0 where
  pub compile : Str → Option (Str → Bool)
  pub lexical_cast : Str → Option ℕ

module _ {V : Type 0} (lib : Libraries) (g : GraphInterface V) (fuel : ℕ)
    (env_name prefix : Str) where
  -- A sequence of what `boost::get<ASTWord>` finds on its sides.
  abbrev pub sequence_of : Option Str → Option Str → Result (List Str)
  sequence_of none r = bad_get
  sequence_of (some lword) none = bad_get
  sequence_of (some lword) (some rword) = sequence lib.lexical_cast fuel lword rword

  -- A key that is no word is noticed at the first child, after it was looked up.
  abbrev pub keys_of : Option Str → List Str → Result (List Str)
  keys_of (some word) children = resolved (Handlers.key_expand (names_of g) prefix word children)
  keys_of none [] = ok []
  keys_of none (child ∷ children) =
      resolved (g.get_node (prefix_child (names_of g) prefix child)) >>= λ n. bad_get

  unfoldable mutual
    unfolding unite subtract intersect filter_difference filter_intersection sequence find_admins
        brace_expand Handlers.expand Handlers.get_cluster

    pub visit : Ast → Result (List Str)
    visit (Ast.word w) = ok (w ∷ [])
    visit (Ast.literal w) = ok (w ∷ [])
    visit (Ast.regex w positive) = ok (w ∷ [])
    visit Ast.null = ok []
    visit (Ast.union l r) = visit l >>= λ ls. visit r >>= λ rs. ok (unite ls rs)
    visit (Ast.difference l r) = visit l >>= λ ls. elim (as_regex r) [
      | some (w, positive) ↦ compiled (filter_difference lib.compile w positive ls)
      | none ↦ visit r >>= λ rs. ok (subtract ls rs)
    ]
    visit (Ast.intersection l r) = visit l >>= λ ls. elim (as_regex r) [
      | some (w, positive) ↦ compiled (filter_intersection lib.compile w positive ls)
      | none ↦ visit r >>= λ rs. ok (intersect ls rs)
    ]
    visit (Ast.sequence l r) = sequence_of (as_word l) (as_word r)
    visit (Ast.expand c) =
        visit c >>= λ cs. resolved (Handlers.expand (is_key_expand c) (names_of g) prefix cs)
    visit (Ast.get_cluster c) =
        visit c >>= λ cs. resolved (Handlers.get_cluster (names_of g) prefix cs)
    visit (Ast.admin c) = visit c >>= λ cs. find_admins g fuel prefix cs []
    visit (Ast.group c) = visit c
    visit (Ast.brace_expand l c r) =
        visit l >>= λ ls. visit c >>= λ cs. visit r >>= λ rs. ok (brace_expand ls cs rs)
    visit (Ast.function_arguments args) = visit_args args >>= λ vecs. ok []
    visit (Ast.function fn args) = visit_args args >>= fn env_name
    visit (Ast.key_expand l r) = visit l >>= keys_of (as_word r)

    pub visit_args : Args → Result (List (List Str))
    visit_args Args.nil = ok []
    visit_args (Args.cons arg args) =
        visit arg >>= λ children. visit_args args >>= λ vecs. ok (add_argument children vecs)

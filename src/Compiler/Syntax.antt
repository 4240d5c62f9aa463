-- ===== src/Compiler/Syntax.antt =====
-- librange/compiler/ast.h, compiler_types.h: the syntax tree of range expressions. The `children` of a
-- node are empty until the visitor comes, and are given here as its result.
use rangexx.Base.{Bool, Option, none, some, List, Str}
use rangexx.Base.Results.{Result}

-- `RangeFunction`: the environment and the arguments.
abbrev pub Function : Type 0
Function = Str → List (List Str) → Result (List Str)

mutual
  pub data Ast : Type 0 where
    word literal : Str → Ast
    regex : Str → Bool → Ast
    null : Ast
    union difference intersection sequence : Ast → Ast → Ast
    expand get_cluster admin group : Ast → Ast
    brace_expand : Ast → Ast → Ast → Ast
    function_arguments : Args → Ast
    function : Function → Args → Ast
    key_expand : Ast → Ast → Ast

  pub data Args : Type 0 where
    nil : Args
    cons : Ast → Args → Args

-- `boost::get<ASTWord>`, and the test of the type that stands before `boost::get<ASTRegex>`.
abbrev pub as_word : Ast → Option Str
as_word (Ast.word w) = some w
as_word _ = none

abbrev pub as_regex : Ast → Option (Str × Bool)
as_regex (Ast.regex w positive) = some (w, positive)
as_regex _ = none

-- ===== src/Compiler/Faults.antt =====
-- Which exceptions a tree can end in, by what stands at its leaves.
use rangexx.Base.{ℕ, ◌≡◌, Bool, false, Option, none, some, List, [], Str}
use rangexx.Base.Results.{Result, ok, err, ◌>>=◌, invalid_range_expression, Kind}
use rangexx.Graph.Interface.{GraphInterface}
use rangexx.Compiler.Syntax.{Function, Ast, Args, as_word, as_regex}
use rangexx.Compiler.Admin.{resolved, find_admins}
use rangexx.Compiler.Visitor.{Libraries, compiled, sequence_of, keys_of, visit, visit_args}

-- The result is no exception of these classes.
abbrev pub Avoids : {A : Type 0} → (Kind → Bool) → Result A → Type 0
Avoids bad (ok a) = Unit
Avoids bad (err e) = bad e.kind ≡ false

pub Avoids-bind :
    {A B : Type 0} (bad : Kind → Bool) (r : Result A) (f : A → Result B)
    → Avoids bad r
    → ((a : A) → Avoids bad (f a))
    → Avoids bad (r >>= f)
Avoids-bind bad (ok a) f h k = k a
Avoids-bind bad (err e) f h k = h

-- What is asked of the sides of sequences, of keys and of functions, everywhere in a tree.
pub record Leaves : Type 1 where
  pub at_sequence : Ast → Ast → Type 0
  pub at_key : Ast → Type 0
  pub at_function : Function → Type 0

unfoldable mutual
  pub Every : Leaves → Ast → Type 0
  Every p (Ast.word w) = Unit
  Every p (Ast.literal w) = Unit
  Every p (Ast.regex w positive) = Unit
  Every p Ast.null = Unit
  Every p (Ast.union l r) = Every p l × Every p r
  Every p (Ast.difference l r) = Every p l × Every p r
  Every p (Ast.intersection l r) = Every p l × Every p r
  Every p (Ast.sequence l r) = p.at_sequence l r
  Every p (Ast.expand c) = Every p c
  Every p (Ast.get_cluster c) = Every p c
  Every p (Ast.admin c) = Every p c
  Every p (Ast.group c) = Every p c
  Every p (Ast.brace_expand l c r) = Every p l × (Every p c × Every p r)
  Every p (Ast.function_arguments args) = EveryArgs p args
  Every p (Ast.function fn args) = p.at_function fn × EveryArgs p args
  Every p (Ast.key_expand l r) = Every p l × p.at_key r

  pub EveryArgs : Leaves → Args → Type 0
  EveryArgs p Args.nil = Unit
  EveryArgs p (Args.cons a args) = Every p a × EveryArgs p args

module _ {V : Type 0} (lib : Libraries) (g : GraphInterface V) (fuel : ℕ)
    (env_name prefix : Str) where
  -- What is asked at the leaves keeps these exceptions away.
  pub record Keeps (bad : Kind → Bool) (p : Leaves) : Type 0 where
    pub invalid : bad invalid_range_expression ≡ false
    pub sequences :
        (l r : Ast)
        → p.at_sequence l r
        → Avoids bad (sequence_of lib g fuel env_name prefix (as_word l) (as_word r))
    pub keys :
        (r : Ast) (cs : List Str)
        → p.at_key r
        → Avoids bad (keys_of lib g fuel env_name prefix (as_word r) cs)
    pub functions :
        (fn : Function) (vecs : List (List Str)) → p.at_function fn → Avoids bad (fn env_name vecs)
    pub admins : (cs : List Str) → Avoids bad (find_admins g fuel prefix cs [])

  module _ (bad : Kind → Bool) (p : Leaves) (k : Keeps bad p) where
    Avoids-resolved : {A : Type 0} (o : Option A) → Avoids bad (resolved o)
    Avoids-resolved none = k.invalid
    Avoids-resolved (some a) = tt

    Avoids-compiled : (o : Option (List Str)) → Avoids bad (compiled o)
    Avoids-compiled none = k.invalid
    Avoids-compiled (some ws) = tt

    -- The right side of a difference or an intersection.
    Avoids-right :
        (o : Option (Str × Bool)) (f : Str → Bool → Option (List Str)) (r : Result (List Str))
        → Avoids bad r
        → Avoids bad (elim o as (λ y. Result (List Str)) [
          | some (w, positive) ↦ compiled (f w positive)
          | none ↦ r
        ])
    Avoids-right none f r h = h
    Avoids-right (some (w, positive)) f r h = Avoids-compiled (f w positive)

    mutual
      unfolding visit Every

      visit-Avoids : (ast : Ast) → Every p ast → Avoids bad (visit lib g fuel env_name prefix ast)
      visit-Avoids (Ast.word w) h = tt
      visit-Avoids (Ast.literal w) h = tt
      visit-Avoids (Ast.regex w positive) h = tt
      visit-Avoids Ast.null h = tt
      visit-Avoids (Ast.union l r) h =
          Avoids-bind bad _ _ (visit-Avoids l h.0)
            λ ls. Avoids-bind bad _ _ (visit-Avoids r h.1) λ rs. tt
      visit-Avoids (Ast.difference l r) h =
          Avoids-bind bad _ _ (visit-Avoids l h.0)
            λ ls. Avoids-right (as_regex r) _ _ (Avoids-bind bad _ _ (visit-Avoids r h.1) λ rs. tt)
      visit-Avoids (Ast.intersection l r) h =
          Avoids-bind bad _ _ (visit-Avoids l h.0)
            λ ls. Avoids-right (as_regex r) _ _ (Avoids-bind bad _ _ (visit-Avoids r h.1) λ rs. tt)
      visit-Avoids (Ast.sequence l r) h = k.sequences l r h
      visit-Avoids (Ast.expand c) h = Avoids-bind bad _ _ (visit-Avoids c h) λ cs. Avoids-resolved _
      visit-Avoids (Ast.get_cluster c) h =
          Avoids-bind bad _ _ (visit-Avoids c h) λ cs. Avoids-resolved _
      visit-Avoids (Ast.admin c) h = Avoids-bind bad _ _ (visit-Avoids c h) λ cs. k.admins cs
      visit-Avoids (Ast.group c) h = visit-Avoids c h
      visit-Avoids (Ast.brace_expand l c r) h = Avoids-bind bad _ _ (visit-Avoids l h.0) λ ls.
          Avoids-bind bad _ _ (visit-Avoids c h.1.0)
            λ cs. Avoids-bind bad _ _ (visit-Avoids r h.1.1) λ rs. tt
      visit-Avoids (Ast.function_arguments args) h =
          Avoids-bind bad _ _ (visit_args-Avoids args h) λ vecs. tt
      visit-Avoids (Ast.function fn args) h =
          Avoids-bind bad _ _ (visit_args-Avoids args h.1) λ vecs. k.functions fn vecs h.0
      visit-Avoids (Ast.key_expand l r) h =
          Avoids-bind bad _ _ (visit-Avoids l h.0) λ cs. k.keys r cs h.1

      visit_args-Avoids :
          (args : Args) → EveryArgs p args → Avoids bad (visit_args lib g fuel env_name prefix args)
      visit_args-Avoids Args.nil h = tt
      visit_args-Avoids (Args.cons a args) h =
          Avoids-bind bad _ _ (visit-Avoids a h.0)
            λ cs. Avoids-bind bad _ _ (visit_args-Avoids args h.1) λ vecs. tt

    pub Avoids-visit : (ast : Ast) → Every p ast → Avoids bad (visit lib g fuel env_name prefix ast)
    Avoids-visit ast h = visit-Avoids ast h

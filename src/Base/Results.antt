-- ===== src/Base/Results.antt =====
-- Results of code that can throw, and what it throws (librange/core/exceptions.h,
-- librange/graph/graph_exceptions.h, librange/compiler/compiler_exceptions.h).
use rangexx.Base.Text.{Str}

pub data Kind : Type 0 where
  create_node edge_not_found incorrect_node_type invalid_environment node_exists node_not_found
        key_not_found graph_cycle incorrect_number_of_arguments invalid_timespec
        invalid_range_expression other bad_get null_pointer undefined out_of_fuel :
      Kind

-- The last ones are no exceptions of the source, but for `boost::bad_get`: a null pointer is followed,
-- a value is out of the range of its type, where the behaviour is undefined, and the fuel of the model
-- is used up. The class of the exception, and `what()`.
pub record Exception : Type 0 where
  pub kind : Kind
  pub what : Str

pub data Result (A : Type 0) : Type 0 where
  ok : A → Result A
  err : Exception → Result A

abbrev pub throw : {A : Type 0} → Kind → Str → Result A
throw kind what = err (record { kind = kind; what = what })

infixl 5 ◌>>=◌
abbrev pub ◌>>=◌ : {A B : Type 0} → Result A → (A → Result B) → Result B
ok a >>= f = f a
err e >>= f = err e

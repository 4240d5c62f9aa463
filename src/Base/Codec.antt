-- ===== src/Base/Codec.antt =====
-- Serialisers that can be read back, for the runs.
use Prim.Native.Nat.{ℕ, zero, suc}
use mathlib.Core.Path.{◌≡◌, refl, ap, ◌∙◌}
use mathlib.Core.Option.{Option, none, some}
use mathlib.Core.List.{List, [], ◌∷◌}
use rangexx.Base.Lists.{length}
use rangexx.Base.Text.{Str}

-- How a value is put in front of the rest of a text, and taken from there.
pub record Codec (A : Type 0) : Type 0 where
  pub write : A → Str → Str
  pub read : Str → Option (A × Str)
  pub read-write : (a : A) (rest : Str) → read (write a rest) ≡ some (a, rest)

abbrev pub read_number : Str → Option (ℕ × Str)
read_number [] = none
read_number (n ∷ rest) = some (n, rest)

abbrev pub number : Codec ℕ
number = record { write = λ n rest. n ∷ rest; read = read_number; read-write = λ n rest. refl }

module _ {A B : Type 0} (f : Codec A) (g : Codec B) where
  abbrev pub with_first : A → Option (B × Str) → Option ((A × B) × Str)
  with_first a none = none
  with_first a (some (b, rest)) = some ((a, b), rest)

  abbrev pub then_read : Option (A × Str) → Option ((A × B) × Str)
  then_read none = none
  then_read (some (a, rest)) = with_first a (g.read rest)

  abbrev pub pair : Codec (A × B)
  pair = record {
    write = λ x rest. f.write x.0 (g.write x.1 rest);
    read = λ text. then_read (f.read text);
    read-write = λ x rest.
        ap then_read (f.read-write x.0 (g.write x.1 rest))
        ∙ ap (with_first x.0) (g.read-write x.1 rest);
  }

module _ {A : Type 0} (f : Codec A) where
  abbrev pub write_all : List A → Str → Str
  write_all [] rest = rest
  write_all (a ∷ items) rest = f.write a (write_all items rest)

  abbrev pub cons_read : A → Option (List A × Str) → Option (List A × Str)
  cons_read a none = none
  cons_read a (some (items, rest)) = some (a ∷ items, rest)

  abbrev pub read_all : ℕ → Str → Option (List A × Str)
  read_all zero text = some ([], text)
  read_all (suc n) text = elim (f.read text) [
    | none ↦ none
    | some x ↦ cons_read x.0 (read_all n x.1)
  ]

  pub read_all-write_all :
      (items : List A) (rest : Str)
      → read_all (length items) (write_all items rest) ≡ some (items, rest)
  read_all-write_all [] rest = refl
  read_all-write_all (a ∷ items) rest =
      rw (f.read-write a (write_all items rest), read_all-write_all items rest)

  abbrev pub read_list : Str → Option (List A × Str)
  read_list [] = none
  read_list (n ∷ text) = read_all n text

  abbrev pub many : Codec (List A)
  many = record {
    write = λ items rest. length items ∷ write_all items rest;
    read = read_list;
    read-write = read_all-write_all;
  }

module _ {A B : Type 0} (f : Codec A) (to : A → B) (from : B → A)
    (to-from : (b : B) → to (from b) ≡ b) where
  abbrev pub map_read : Option (A × Str) → Option (B × Str)
  map_read none = none
  map_read (some (a, rest)) = some (to a, rest)

  abbrev pub along : Codec B
  along = record {
    write = λ b rest. f.write (from b) rest;
    read = λ text. map_read (f.read text);
    read-write = λ b rest. rw (f.read-write (from b) rest, to-from b);
  }

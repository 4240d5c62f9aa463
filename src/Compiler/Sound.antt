-- ===== src/Compiler/Sound.antt =====
-- Trees as the parser builds them, and the end of the visitor.
use mathlib.Core.List.{reverse}
use rangexx.Base.{
  ℕ, ◌+◌, ◌≤◌, ◌<◌, ◌≡◌, refl, ap, ◌∙◌, Bool, true, false, Option, none, some, List, [], ◌∷◌, Str,
  arith,
}
use rangexx.Base.Results.{Result, ok, err, ◌>>=◌, Kind, Exception}
use rangexx.Search.Loop.{breadth, Outcome, ended, stopped, out_of_fuel, search}
use rangexx.Search.Ends.{search_ends}
use rangexx.Graph.Interface.{GraphInterface}
use rangexx.Api.Found.{Alike, Finite}
use rangexx.Compiler.Syntax.{Ast, as_word}
use rangexx.Compiler.Handlers
use rangexx.Compiler.Handlers.{prefix_child}
use rangexx.Compiler.Sequence.{
  word, Scanned, Bounds, close_bounds, defined, counted, count_up, sequence_bounds, sequence,
  after_prefix,
}
use rangexx.Compiler.Count.{IsNarrow, CountSpec, counted_lem}
use rangexx.Compiler.Admin.{
  names_of, names_admins, admins_at, add_admins, resolved, nearest_admins, find_admins,
}
use rangexx.Compiler.Visitor.{Libraries, bad_get, sequence_of, keys_of, visit}
use rangexx.Compiler.Faults.{Avoids, Avoids-bind, Leaves, Every, Avoids-visit}

abbrev pub is_bad_get : Kind → Bool
is_bad_get Kind.bad_get = true
is_bad_get _ = false

abbrev pub is_fuel : Kind → Bool
is_fuel Kind.out_of_fuel = true
is_fuel _ = false

abbrev pub IsWord : Ast → Type 0
IsWord ast = (w : Str) × (as_word ast ≡ some w)

-- The sides of sequences and the keys are words, and functions do not take a wrong variant either.
abbrev pub typed : Leaves
typed = record {
  at_sequence = λ l r. IsWord l × IsWord r;
  at_key = IsWord;
  at_function = λ fn. (env : Str) (vecs : List (List Str)) → Avoids is_bad_get (fn env vecs);
}

-- No sequence counts to the greatest uint32_t.
abbrev pub StopsAt : (Str → Option ℕ) → Option Str → Option Str → Type 0
StopsAt lexical_cast (some l) (some r) =
    (b : Bounds) → sequence_bounds lexical_cast l r ≡ ok b → b.rnum + 1 < word
StopsAt lexical_cast _ _ = Unit

-- No sequence counts to the greatest uint32_t, and the functions return.
abbrev pub ending : Libraries → Leaves
ending lib = record {
  at_sequence = λ l r. StopsAt lib.lexical_cast (as_word l) (as_word r);
  at_key = λ r. Unit;
  at_function = λ fn. (env : Str) (vecs : List (List Str)) → Avoids is_fuel (fn env vecs);
}

module _ {V : Type 0} (lib : Libraries) (g : GraphInterface V) (fuel : ℕ)
    (env_name prefix : Str) where
  close-typed :
      (l r : Str) (scanned : Scanned)
      → Avoids is_bad_get (close_bounds lib.lexical_cast l r scanned)
  unfolding close_bounds
  close-typed l r scanned = ground arith

  sequence-typed : (l r : Str) → Avoids is_bad_get (sequence lib.lexical_cast fuel l r)
  unfolding sequence sequence_bounds
  sequence-typed l r =
      Avoids-bind is_bad_get _ _
        (Avoids-bind is_bad_get _ _ (by_scan _)
          λ scanned. close-typed l (after_prefix lib.lexical_cast (reverse scanned.rest) r) scanned)
        λ b. by_count b (count_up fuel b.lnum b.rnum)
    where
      by_scan : (o : Option Scanned) → Avoids is_bad_get (defined lib.lexical_cast o)
      by_scan none = refl
      by_scan (some scanned) = tt

      by_count :
          (b : Bounds) (o : Option (List ℕ)) → Avoids is_bad_get (counted lib.lexical_cast b o)
      by_count b none = refl
      by_count b (some ns) = tt

  admins-typed : (cs found : List Str) → Avoids is_bad_get (find_admins g fuel prefix cs found)
  unfolding find_admins nearest_admins
  admins-typed [] found = tt
  admins-typed (c ∷ cs) found =
      Avoids-bind is_bad_get _ _ (by_node (g.get_node (prefix_child (names_of g) prefix c))) λ n.
        Avoids-bind is_bad_get _ _ (by_outcome _)
          λ values. admins-typed cs (add_admins values found)
    where
      by_node : (o : Option V) → Avoids is_bad_get (resolved o)
      by_node none = refl
      by_node (some n) = tt

      by_outcome : (o : Outcome V) → Avoids is_bad_get (admins_at g fuel prefix o)
      by_outcome (ended visited) = tt
      by_outcome (stopped v visited) = tt
      by_outcome out_of_fuel = refl

  close-ends :
      (l r : Str) (scanned : Scanned) → Avoids is_fuel (close_bounds lib.lexical_cast l r scanned)
  unfolding close_bounds
  close-ends l r scanned = ground arith

  bounds-ends : (l r : Str) → Avoids is_fuel (sequence_bounds lib.lexical_cast l r)
  unfolding sequence_bounds
  bounds-ends l r =
      Avoids-bind is_fuel _ _ (by_scan _)
        λ scanned. close-ends l (after_prefix lib.lexical_cast (reverse scanned.rest) r) scanned
    where
      by_scan : (o : Option Scanned) → Avoids is_fuel (defined lib.lexical_cast o)
      by_scan none = refl
      by_scan (some scanned) = tt

  -- A tree whose sequences have words on both sides, whose keys are words and whose functions do not
  -- take a wrong variant either, never ends in `boost::bad_get`.
  pub visit-typed :
      (ast : Ast) → Every typed ast → Avoids is_bad_get (visit lib g fuel env_name prefix ast)
  visit-typed = Avoids-visit lib g fuel env_name prefix is_bad_get typed (record {
    invalid = refl;
    sequences = λ l r h. sequences l r h;
    keys = λ r cs h. keys r cs h;
    functions = λ fn vecs h. h env_name vecs;
    admins = λ cs. admins-typed cs [];
  })
    where
      sequences :
          (l r : Ast)
          → IsWord l × IsWord r
          → Avoids is_bad_get (sequence_of lib g fuel env_name prefix (as_word l) (as_word r))
      sequences l r ((lw, e), (rw', f)) = rw (e, f) (sequence-typed lw rw')

      resolved-typed : (o : Option (List Str)) → Avoids is_bad_get (resolved o)
      resolved-typed none = refl
      resolved-typed (some ws) = tt

      keys :
          (r : Ast) (cs : List Str)
          → IsWord r
          → Avoids is_bad_get (keys_of lib g fuel env_name prefix (as_word r) cs)
      keys r cs (w, e) = rw e (resolved-typed (Handlers.key_expand (names_of g) prefix w cs))

  sequence-ends :
      IsNarrow lib.lexical_cast
      → word ≤ fuel
      → (l r : Option Str) → StopsAt lib.lexical_cast l r
      → Avoids is_fuel (sequence_of lib g fuel env_name prefix l r)
  sequence-ends narrow enough none r h = refl
  sequence-ends narrow enough (some l) none h = refl
  sequence-ends narrow enough (some l) (some r) h =
      by_spec (sequence_bounds lib.lexical_cast l r) (sequence lib.lexical_cast fuel l r)
        (bounds-ends l r) h (counted_lem lib.lexical_cast narrow fuel enough l r)
    where
      by_spec :
          (b : Result Bounds) (o : Result (List Str))
          → Avoids is_fuel b
          → ((x : Bounds) → b ≡ ok x → x.rnum + 1 < word)
          → CountSpec lib.lexical_cast b o
          → Avoids is_fuel o
      by_spec (ok b) (ok texts) a h p = tt
      by_spec (ok b) (err e) a h p = absurd (omega (arith, h b refl, p.1))
      by_spec (err e) (ok texts) a h p = absurd p
      by_spec (err e) (err f) a h p = ap (λ (x : Exception). is_fuel x.kind) p ∙ a

  module _ (alike : Alike g.node) (us : List V)
      (finite : Finite g g.node.reverse_edges fuel us) where
    nearest-ends :
        (s : Str) (n : V) → g.get_node s ≡ some n → Avoids is_fuel (nearest_admins g fuel prefix n)
    unfolding nearest_admins
    nearest-ends s n e =
        by_outcome
          (search g.node.name g.node.reverse_edges breadth (names_admins g fuel prefix) fuel []
            (n ∷ []))
          (search_ends g.node.name g.node.reverse_edges alike.reverse us finite.closed breadth
            (names_admins g fuel prefix) fuel [] (n ∷ []) (finite.looked_up s n e, tt)
            finite.enough)
      where
        by_outcome :
            (o : Outcome V) → (o ≡ out_of_fuel → ⊥) → Avoids is_fuel (admins_at g fuel prefix o)
        by_outcome (ended visited) h = tt
        by_outcome (stopped v visited) h = tt
        by_outcome out_of_fuel h = absurd (h refl)

    admins-end : (cs found : List Str) → Avoids is_fuel (find_admins g fuel prefix cs found)
    unfolding find_admins
    admins-end [] found = tt
    admins-end (c ∷ cs) found =
        by_node (g.get_node (prefix_child (names_of g) prefix c)) refl
          λ values. admins-end cs (add_admins values found)
      where
        by_node :
            (o : Option V)
            → g.get_node (prefix_child (names_of g) prefix c) ≡ o
            → ((values : List Str)
                → Avoids is_fuel (find_admins g fuel prefix cs (add_admins values found)))
            → Avoids is_fuel (
                resolved o >>= λ n. nearest_admins g fuel prefix n >>= λ values.
                find_admins g fuel prefix cs (add_admins values found))
        by_node none e h = refl
        by_node (some n) e h =
            Avoids-bind is_fuel _ _ (nearest-ends (prefix_child (names_of g) prefix c) n e) h

    resolved-ends : {A : Type 0} (o : Option A) → Avoids is_fuel (resolved o)
    resolved-ends none = refl
    resolved-ends (some ws) = tt

    keys-end :
        (r : Option Str) (cs : List Str) → Avoids is_fuel (keys_of lib g fuel env_name prefix r cs)
    keys-end (some w) cs = resolved-ends (Handlers.key_expand (names_of g) prefix w cs)
    keys-end none [] = tt
    keys-end none (c ∷ cs) = by_node (g.get_node (prefix_child (names_of g) prefix c))
      where
        by_node : (o : Option V) → Avoids is_fuel (resolved o >>= λ n. bad_get {A = List Str})
        by_node none = refl
        by_node (some n) = refl

    -- If the graph is finite, a cast gives uint32_t values only, no sequence counts to the greatest
    -- uint32_t and the functions return, then the visitor ends on the tree.
    pub visit-ends :
        IsNarrow lib.lexical_cast
        → word ≤ fuel
        → (ast : Ast) → Every (ending lib) ast
        → Avoids is_fuel (visit lib g fuel env_name prefix ast)
    visit-ends narrow enough =
        Avoids-visit lib g fuel env_name prefix is_fuel (ending lib) (record {
          invalid = refl;
          sequences = λ l r h. sequence-ends narrow enough (as_word l) (as_word r) h;
          keys = λ r cs h. keys-end (as_word r) cs;
          functions = λ fn vecs h. h env_name vecs;
          admins = λ cs. admins-end cs [];
        })

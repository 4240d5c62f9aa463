-- ===== src/Compiler/Admins.antt =====
-- Which admins the visitor finds for the children of an `ASTAdmin`.
use rangexx.Base.{
  ℕ, ◌≡◌, refl, ap, ◌⊎◌, inl, inr, Bool, false, ◌||◌, Option, none, some, List, [], ◌∷◌, ◌++◌, Str,
  str_eq_iff, elem, elem-append, arith, Bool-cases,
}
use rangexx.Base.Results.{Result, ok, err, ◌>>=◌, invalid_range_expression}
use rangexx.Search.Loop.{breadth, Outcome, ended, stopped, out_of_fuel, search}
use rangexx.Search.Reach.{In, Reaches}
use rangexx.Search.Explored.{SearchSpec, search_lem}
use rangexx.Search.Nearest.{Nearest, nearest_lem}
use rangexx.Node.Tags.{find}
use rangexx.Graph.Interface.{GraphInterface}
use rangexx.Api.Searches.{has_key, has_value}
use rangexx.Api.Found.{Alike, Finite}
use rangexx.Api.FirstKey.{holds, none_has}
use rangexx.Compiler.Handlers.{prefix_child}
use rangexx.Compiler.Admin.{
  names_of, admin_tag, add_admins, admins_at, resolved, nearest_admins, find_admins,
}

-- No text occurs twice.
abbrev pub Once : List Str → Type 0
Once [] = Unit
Once (x ∷ xs) = (elem x xs ≡ false) × Once xs

Once-append_one : (a : Str) (xs : List Str) → elem a xs ≡ false → Once xs → Once (xs ++ a ∷ [])
unfolding elem
Once-append_one a [] h k = (refl, tt)
Once-append_one a (x ∷ xs) h k = (
  ground (arith, h, k.0, elem-append x xs (a ∷ []), str_eq_iff x a, str_eq_iff a x),
  Once-append_one a xs (ground (arith, h)) k.1,
)

elem-add_admins :
    (a : Str) (values found : List Str)
    → elem a (add_admins values found) ≡ (elem a values || elem a found)
unfolding add_admins elem
elem-add_admins a [] found = refl
elem-add_admins a (v ∷ values) found = elim (Bool-cases (elem v found)) [
  | inl h ↦
      ground (arith, h, elem-add_admins a values found, str_eq_iff a v, ap (λ s. elem s found))
  | inr h ↦
      ground (arith, h, elem-add_admins a values (found ++ v ∷ []), elem-append a found (v ∷ []))
]

Once-add_admins : (values found : List Str) → Once found → Once (add_admins values found)
unfolding add_admins
Once-add_admins [] found k = k
Once-add_admins (v ∷ values) found k = elim (Bool-cases (elem v found)) [
  | inl h ↦ rw h (Once-add_admins values found k)
  | inr h ↦ rw h (Once-add_admins values (found ++ v ∷ []) (Once-append_one v found h k))
]

module _ {V : Type 0} (g : GraphInterface V) (fuel : ℕ) (prefix : Str) where
  abbrev up : V → List V
  up = g.node.reverse_edges

  -- The admins of a node that has some and is as near above `n` as any such node; or none.
  abbrev pub Serves : V → List Str → Type 0
  Serves n values =
      ((v : V) × (Nearest g.node.name up (has_key g admin_tag) (n ∷ []) v
          × (find admin_tag (g.node.tags v) ≡ some values)))
      ⊎ (((v : V) → Reaches g.node.name up (n ∷ []) v → find admin_tag (g.node.tags v) ≡ none)
          × (values ≡ []))

  -- Each child is found in the graph, and has these admins.
  pub data Served : List Str → List (List Str) → Type 0 where
    nobody : Served [] []
    also :
        {child : Str} {children : List Str} {n : V} {values : List Str} {rest : List (List Str)}
        → g.get_node (prefix_child (names_of g) prefix child) ≡ some n
        → Serves n values
        → Served children rest
        → Served (child ∷ children) (values ∷ rest)

  abbrev pub elem_any : Str → List (List Str) → Bool
  elem_any a [] = false
  elem_any a (values ∷ rest) = elem a values || elem_any a rest

  -- An unknown child; or exactly the admins of all children, each once.
  abbrev pub AdminsSpec : List Str → List Str → Result (List Str) → Type 0
  AdminsSpec children before (err x) =
      (x.kind ≡ invalid_range_expression)
      × ((child : Str) × (In child children
            × (g.get_node (prefix_child (names_of g) prefix child) ≡ none)))
  AdminsSpec children before (ok found) =
      (all : List (List Str)) × (Served children all
        × (((a : Str) → elem a found ≡ (elem_any a all || elem a before)) × Once found))

  module _ (alike : Alike g.node) (us : List V) (finite : Finite g up fuel us) where
    nearest_admins_lem :
        (s : Str) (n : V)
        → g.get_node s ≡ some n
        → (values : List Str) × ((nearest_admins g fuel prefix n ≡ ok values) × Serves n values)
    unfolding nearest_admins
    nearest_admins_lem s n e =
        by_outcome (search g.node.name up breadth (has_key g admin_tag) fuel [] (n ∷ [])) refl (
          search_lem g.node.name up alike.reverse us finite.closed breadth (has_key g admin_tag)
            fuel (n ∷ []) (finite.looked_up s n e, tt) finite.enough)
      where
        by_outcome :
            (o : Outcome V)
            → search g.node.name up breadth (has_key g admin_tag) fuel [] (n ∷ []) ≡ o
            → SearchSpec g.node.name up (has_key g admin_tag) (n ∷ []) o
            → (values : List Str) × ((admins_at g fuel prefix o ≡ ok values) × Serves n values)
        by_outcome (ended visited) q p =
            ([], (refl, inr (none_has g prefix admin_tag alike (n ∷ []) visited p, refl)))
        by_outcome (stopped v visited) q p = (
          _,
          (
            refl,
            inl (
              v,
              (
                nearest_lem g.node.name up alike.reverse (has_key g admin_tag)
                    (λ u w same. ap (λ t. has_value (find admin_tag t)) (alike.tags u w same))
                    (n ∷ []) fuel v visited q,
                (holds g prefix admin_tag v p.1).values,
              ),
            ),
          ),
        )
        by_outcome out_of_fuel q p = absurd p

    admins_from :
        (children found : List Str)
        → Once found
        → AdminsSpec children found (find_admins g fuel prefix children found)
    unfolding find_admins
    admins_from [] found k = ([], (Served.nobody, ((λ a. refl), k)))
    admins_from (child ∷ children) found k =
        by_node (g.get_node (prefix_child (names_of g) prefix child)) refl
          λ values. admins_from children (add_admins values found) (Once-add_admins values found k)
      where
        add :
            (n : V) (values : List Str) (r : Result (List Str))
            → g.get_node (prefix_child (names_of g) prefix child) ≡ some n
            → Serves n values
            → AdminsSpec children (add_admins values found) r
            → AdminsSpec (child ∷ children) found r
        add n values (err x) e p (q, (c, (i, h))) = (q, (c, (inr i, h)))
        add n values (ok out) e p (all, (served, (same, once))) = (
          values ∷ all,
          (
            Served.also e p served,
            ((λ a. ground (arith, same a, elem-add_admins a values found)), once),
          ),
        )

        by_node :
            (o : Option V)
            → g.get_node (prefix_child (names_of g) prefix child) ≡ o
            → ((values : List Str)
                → AdminsSpec children
                    (add_admins values found)
                    (find_admins g fuel prefix children (add_admins values found)))
            → AdminsSpec (child ∷ children) found (
                resolved o >>= λ n. nearest_admins g fuel prefix n >>= λ values.
                find_admins g fuel prefix children (add_admins values found))
        by_node none e next = (refl, (child, (inl refl, e)))
        by_node (some n) e next =
            let (values, (q, p)) =
              nearest_admins_lem (prefix_child (names_of g) prefix child) n e in
            rw q (
              add n values (find_admins g fuel prefix children (add_admins values found)) e p
                (next values))

    -- In a finite graph, the search for the admins of children ends. It throws only if a child is not
    -- in the graph; else it gives exactly the admins of all children, each once, where those of a child
    -- are named by a node that is as near above it as any node that names admins, or there are none.
    pub find_admins_lem :
        (children : List Str) → AdminsSpec children [] (find_admins g fuel prefix children [])
    find_admins_lem children = admins_from children [] tt

-- ===== src/Compiler/Resolved.antt =====
-- librange/compiler/expanding_visitor.cpp, `prefix_child` and the loop of `ASTExpand`: which node a
-- child stands for, and what is collected of the nodes.
use rangexx.Base.{
  ℕ, ◌+◌, ◌≤◌, ◌≡◌, ◌≢◌, refl, sym, ap, ◌∙◌, ◌⊎◌, inl, inr, true, false, Option, none, some, List,
  [], ◌∷◌, ◌++◌, Str, str_eq, str_eq_iff, arith, Bool-cases, Bool-apart, if◌then◌else◌, leb, leb→le,
}
use rangexx.Search.Reach.{In}
use rangexx.Compiler.Order.{occurs}
use rangexx.Compiler.Handlers.{Vertex, Graph, starts_with, has_vertex, prefix_child, collect}

module _ (graph : Graph) (prefix child : Str) where
  -- The name under which a child is looked up: with the prefix if it does not stand there yet and
  -- there is such a node, else as it is.
  pub data Named : Str → Type 0 where
    under :
        {v : Vertex}
        → ((rest : Str) → child ≢ prefix ++ rest)
        → graph (prefix ++ child) ≡ some v
        → Named (prefix ++ child)
    bare :
        ((rest : Str) × (child ≡ prefix ++ rest)) ⊎ (graph (prefix ++ child) ≡ none) → Named child

  -- A child that stands for a node, and one that stands for none.
  pub data Resolved (v : Vertex) : Type 0 where
    node : {name : Str} → Named name → graph name ≡ some v → Resolved v

  pub data Lost : Type 0 where
    nowhere : {name : Str} → Named name → graph name ≡ none → Lost

head_eq : (b a : ℕ) → (b ∷ []) ≡ (a ∷ []) → b ≡ a
head_eq b a h = ground (arith, h)

starts_with_some :
    (prefix child : Str) → starts_with prefix child ≡ true → (rest : Str) × (child ≡ prefix ++ rest)
starts_with_some [] child e = (child, refl)
starts_with_some (a ∷ prefix) [] e = absurd (Bool-apart (sym e))
starts_with_some (a ∷ prefix) (b ∷ child) e =
    let (rest, q) = starts_with_some prefix child (ground (arith, e)) in
    let same : str_eq (a ∷ []) (b ∷ []) ≡ true = ground (arith, e) in
    let q' : b ≡ a = head_eq b a (sym ((str_eq_iff (a ∷ []) (b ∷ [])).0 same)) in
    (rest, ap (λ l. b ∷ l) q ∙ ap (λ c. c ∷ prefix ++ rest) q')

starts_with_append : (prefix rest : Str) → starts_with prefix (prefix ++ rest) ≡ true
starts_with_append [] rest = refl
starts_with_append (a ∷ prefix) rest =
    ground (arith, starts_with_append prefix rest, (str_eq_iff (a ∷ []) (a ∷ [])).1 refl)

prefix_child-Named :
    (graph : Graph) (prefix child : Str)
    → Named graph prefix child (prefix_child graph prefix child)
unfolding prefix_child
prefix_child-Named graph [] child = Named.bare (inl (child, refl))
prefix_child-Named graph (a ∷ prefix) child = elim (Bool-cases (starts_with (a ∷ prefix) child)) [
  | inl e ↦ rw e (Named.bare (inl (starts_with_some (a ∷ prefix) child e)))
  | inr e ↦ rw e (by_vertex e (graph ((a ∷ prefix) ++ child)) refl)
]
  where
    by_vertex :
        starts_with (a ∷ prefix) child ≡ false
        → (o : Option Vertex) → graph ((a ∷ prefix) ++ child) ≡ o
        → Named graph (a ∷ prefix) child (if has_vertex o then (a ∷ prefix) ++ child else child)
    by_vertex e none q = Named.bare (inr q)
    by_vertex e (some v) q =
        Named.under
          (λ rest h. Bool-apart (
            sym (starts_with_append (a ∷ prefix) rest)
            ∙ (ap (starts_with (a ∷ prefix)) (sym h) ∙ e)))
          q

-- The texts that are taken of the nodes of all children, or a child without a node.
pub record Gathered (part : Vertex → List Str) (graph : Graph) (prefix : Str)
    (children xs : List Str) : Type 0 where
  pub complete :
      (child : Str)
      → In child children
      → (v : Vertex) × (Resolved graph prefix child v
          × ((x : Str) → 1 ≤ occurs x (part v) → 1 ≤ occurs x xs))
  pub sound :
      (x : Str)
      → 1 ≤ occurs x xs
      → (child : Str) × (In child children
          × ((v : Vertex) × (Resolved graph prefix child v × (1 ≤ occurs x (part v)))))

abbrev pub CollectSpec : (Vertex → List Str) → Graph → Str → List Str → Option (List Str) → Type 0
CollectSpec part graph prefix children none =
    (child : Str) × (In child children × Lost graph prefix child)
CollectSpec part graph prefix children (some xs) = Gathered part graph prefix children xs

occurs-append : (x : Str) (xs ys : List Str) → occurs x (xs ++ ys) ≡ occurs x xs + occurs x ys
unfolding occurs
occurs-append x [] ys = omega arith
occurs-append x (w ∷ xs) ys = ground (arith, occurs-append x xs ys)

module _ (part : Vertex → List Str) (graph : Graph) (prefix : Str) where
  Gathered-more :
      (child : Str) (children xs : List Str) (v : Vertex)
      → Resolved graph prefix child v
      → Gathered part graph prefix children xs
      → Gathered part graph prefix (child ∷ children) (part v ++ xs)
  Gathered-more child children xs v r p = record { complete = complete; sound = sound }
    where
      complete :
          (other : Str)
          → In other (child ∷ children)
          → (u : Vertex) × (Resolved graph prefix other u
              × ((x : Str) → 1 ≤ occurs x (part u) → 1 ≤ occurs x (part v ++ xs)))
      complete other (inl e) = (v, (rw e r, λ x h. omega (arith, h, occurs-append x (part v) xs)))
      complete other (inr i) =
          let (u, (q, all)) = p.complete other i in
          (u, (q, λ x h. omega (arith, all x h, occurs-append x (part v) xs)))

      sound :
          (x : Str)
          → 1 ≤ occurs x (part v ++ xs)
          → (other : Str) × (In other (child ∷ children)
              × ((u : Vertex) × (Resolved graph prefix other u × (1 ≤ occurs x (part u)))))
      sound x h = elim (Bool-cases (leb 1 (occurs x (part v)))) [
        | inl k ↦ (child, (inl refl, (v, (r, leb→le 1 (occurs x (part v)) k))))
        | inr k ↦
            let (other, (i, u)) = p.sound x (ground (arith, h, k, occurs-append x (part v) xs)) in
            (other, (inr i, u))
      ]

  pub collect_lem :
      (children : List Str)
      → CollectSpec part graph prefix children (collect part graph prefix children)
  unfolding collect occurs
  collect_lem [] = record { complete = λ c i. absurd i; sound = λ x h. absurd (omega (arith, h)) }
  collect_lem (child ∷ children) =
      by_vertex (collect_lem children) (graph (prefix_child graph prefix child)) refl
    where
      name : Str
      name = prefix_child graph prefix child

      by_rest :
          (v : Vertex)
          → graph name ≡ some v
          → (o : Option (List Str)) → CollectSpec part graph prefix children o
          → CollectSpec part graph prefix (child ∷ children) (elim o as (λ y. Option (List Str)) [
            | none ↦ none
            | some names ↦ some (part v ++ names)
          ])
      by_rest v e none (c, (i, l)) = (c, (inr i, l))
      by_rest v e (some names) p =
          Gathered-more child children names v
            (Resolved.node (prefix_child-Named graph prefix child) e) p

      by_vertex :
          CollectSpec part graph prefix children (collect part graph prefix children)
          → (o : Option Vertex) → graph name ≡ o
          → CollectSpec part graph prefix (child ∷ children) (elim o as (λ y. Option (List Str)) [
            | none ↦ none
            | some v ↦ elim (collect part graph prefix children) as (λ y. Option (List Str)) [
              | none ↦ none
              | some names ↦ some (part v ++ names)
            ]
          ])
      by_vertex later none e =
          (child, (inl refl, Lost.nowhere (prefix_child-Named graph prefix child) e))
      by_vertex later (some v) e = by_rest v e (collect part graph prefix children) later

-- ===== src/Api/Visits.antt =====
-- What the searches of `find_orphaned_nodes` visit.
use mathlib.Core.Path.{subst}
use rangexx.Base.{ℕ, ◌≡◌, refl, sym, ap, ◌∙◌, ◌⊎◌, inl, inr, some, List, [], ◌∷◌, Str, arith}
use rangexx.Base.Results.{ok}
use rangexx.Search.Loop.{depth, Outcome, ended, stopped, out_of_fuel, search}
use rangexx.Search.Reach.{In, Reaches}
use rangexx.Search.Explored.{Explored, SearchSpec}
use rangexx.Search.More.{search_more, weight_whole}
use rangexx.Graph.Interface.{GraphInterface}
use rangexx.Api.Searches.{never, visited_of, visit_envs}
use rangexx.Api.Found.{Alike, Finite}

some_eq : {A : Type 0} {a b : A} → some a ≡ some b → a ≡ b
some_eq h = cc

abbrev pub reverse_onto : List Str → List Str → List Str
reverse_onto [] done = done
reverse_onto (env ∷ envs) done = reverse_onto envs (env ∷ done)

pub In-reverse_onto :
    (x : Str) (envs done : List Str)
    → (In x envs ⊎ In x done → In x (reverse_onto envs done))
      × (In x (reverse_onto envs done) → In x envs ⊎ In x done)
In-reverse_onto x [] done = (λ h. elim h [ inl i ↦ elim i [ ] | inr i ↦ i ], λ h. inr h)
In-reverse_onto x (env ∷ envs) done =
    let (into, out) = In-reverse_onto x envs (env ∷ done) in
    (
      λ h.
          into (elim h [
            | inl i ↦ elim i [ inl e ↦ inr (inl e) | inr j ↦ inl j ]
            | inr i ↦ inr (inr i)
          ]),
      λ h. elim (out h) [
        | inl i ↦ inl (inr i)
        | inr i ↦ elim i [ inl e ↦ inl (inl e) | inr j ↦ inr j ]
      ],
    )

module _ {V : Type 0} (g : GraphInterface V) where
  abbrev name : V → Str
  name = g.node.name

  abbrev down : V → List V
  down = g.node.forward_edges

  -- A name that a path leads to from what `get_node` finds under one of the environments.
  pub record Led (envs : List Str) (s : Str) : Type 0 where
    pub env : Str
    pub listed : In env envs
    pub first : V
    pub looked_up : g.get_node env ≡ some first
    pub last : V
    pub path : Reaches g.node.name g.node.forward_edges (first ∷ []) last
    pub named : s ≡ g.node.name last

  -- What was visited from the environments of these names.
  pub record Visits (envs : List Str) (visited : List V) : Type 0 where
    pub starts : List V
    pub explored : Explored name down never starts visited
    pub rooted : (n : V) → In n starts → (env : Str) × (In env envs × (g.get_node env ≡ some n))
    pub all_found : (env : Str) (n : V) → In env envs → g.get_node env ≡ some n → In n starts

  Visits-next :
      (alike : Alike g.node) (fuel : ℕ) (us : List V) (finite : Finite g down fuel us)
      → (done : List Str) (visited : List V) (env : Str) (n : V) → Visits done visited
      → g.get_node env ≡ some n
      → (o : Outcome V) → search name down depth never fuel visited (n ∷ []) ≡ o
      → (after : List V) × ((visited_of o ≡ ok after) × Visits (env ∷ done) after)
  Visits-next alike fuel us finite done visited env n p e o q = by_outcome o (
      subst (SearchSpec name down never (n ∷ p.starts)) q (
        search_more name down alike.forward us finite.closed depth never fuel p.starts visited n
          p.explored (finite.looked_up env n e)
          (omega (arith, finite.enough, weight_whole name down alike.forward visited us))))
    where
      rooted :
          (m : V)
          → In m (n ∷ p.starts)
          → (env' : Str) × (In env' (env ∷ done) × (g.get_node env' ≡ some m))
      rooted m (inl same) = (env, (inl refl, e ∙ ap some (sym same)))
      rooted m (inr i) = let (env', (j, f)) = p.rooted m i in (env', (inr j, f))

      all_found :
          (env' : Str) (m : V)
          → In env' (env ∷ done)
          → g.get_node env' ≡ some m
          → In m (n ∷ p.starts)
      all_found env' m (inl same) f =
          inl (some_eq (sym f ∙ ap (λ (s : Str). g.get_node s) same ∙ e))
      all_found env' m (inr i) f = inr (p.all_found env' m i f)

      by_outcome :
          (o : Outcome V)
          → SearchSpec name down never (n ∷ p.starts) o
          → (after : List V) × ((visited_of o ≡ ok after) × Visits (env ∷ done) after)
      by_outcome (ended after) x = (
        after,
        (
          refl,
          record { starts = n ∷ p.starts; explored = x; rooted = rooted; all_found = all_found },
        ),
      )
      by_outcome (stopped v after) x = absurd (ground (arith, x))
      by_outcome out_of_fuel x = absurd x

  pub visit_envs_lem :
      (alike : Alike g.node) (fuel : ℕ) (us : List V) (finite : Finite g down fuel us)
      → (envs done : List Str) (visited : List V) → Visits done visited
      → ((env : Str) → In env envs → (n : V) × (g.get_node env ≡ some n))
      → (after : List V) × ((visit_envs g fuel envs visited ≡ ok after)
          × Visits (reverse_onto envs done) after)
  unfolding visit_envs
  visit_envs_lem alike fuel us finite [] done visited p h = (visited, (refl, p))
  visit_envs_lem alike fuel us finite (env ∷ envs) done visited p h =
      let (n, e) = h env (inl refl) in
      let (between, (q, next)) =
        Visits-next alike fuel us finite done visited env n p e
          (search name down depth never fuel visited (n ∷ [])) refl in
      let (after, (r, last)) =
        visit_envs_lem alike fuel us finite envs (env ∷ done) between next (λ x i. h x (inr i)) in
      (after, (rw e (rw q r), last))

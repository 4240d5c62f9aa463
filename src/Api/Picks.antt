-- ===== src/Api/Picks.antt =====
-- Which node a lookup by an environment and a name picks.
use mathlib.Core.Option.{some-injective, none-ne-some}
use rangexx.Base.{
  ℕ, arith, ◌≡◌, ◌≢◌, refl, sym, ap, ◌∙◌, ◌⊎◌, inl, inr, Bool, true, false, ◌||◌, Bool-apart,
  Option, none, some, [], ◌∷◌, Str, str_eq, str_eq_iff, Bool-cases,
}
use rangexx.Base.Results.{Result, ok, err, node_not_found}
use rangexx.Node.Info.{NodeType, environment, host, string, type_eq}
use rangexx.Graph.Interface.{GraphInterface}
use rangexx.Api.Names.{prefixed_node_name}
use rangexx.Api.Lookup.{of_type, bare_node, get_node, or_else}

module _ {V : Type 0} (g : GraphInterface V) (env_name node_name : Str) where
  abbrev type_of : V → NodeType
  type_of v = g.node.type v

  -- What is asked for: the environment itself, a node of no environment, or one of this environment.
  abbrev AsksEnv : Type 0
  AsksEnv = (env_name ≢ []) × ((node_name ≡ []) ⊎ (node_name ≡ env_name))

  abbrev AsksLeaf : Type 0
  AsksLeaf = (env_name ≡ []) × (node_name ≢ [])

  abbrev AsksMember : Type 0
  AsksMember = (env_name ≢ []) × ((node_name ≢ []) × (node_name ≢ env_name))

  abbrev is_leaf : V → Bool
  is_leaf v = type_eq (type_of v) string || type_eq (type_of v) host

  -- The ways in which a node is picked.
  pub data Picked : V → Type 0 where
    env :
        {v : V}
        → AsksEnv
        → g.get_node env_name ≡ some v
        → type_eq (type_of v) environment ≡ true
        → Picked v
    leaf : {v : V} → AsksLeaf → g.get_node node_name ≡ some v → is_leaf v ≡ true → Picked v
    member :
        {v : V}
        → AsksMember
        → g.get_node (prefixed_node_name env_name node_name) ≡ some v
        → Picked v
    bare :
        {v : V}
        → AsksMember
        → g.get_node (prefixed_node_name env_name node_name) ≡ none
        → g.get_node node_name ≡ some v
        → type_eq (type_of v) host ≡ true
        → Picked v

  -- Nothing was asked for, or no node of either name is there.
  pub data Absent : Type 0 where
    unnamed : env_name ≡ [] → node_name ≡ [] → Absent
    missing :
        AsksMember
        → g.get_node (prefixed_node_name env_name node_name) ≡ none
        → g.get_node node_name ≡ none
        → Absent

  -- The reasons for an exception: there is no node, or it is of a wrong type.
  pub data Refused : Type 0 where
    no_env :
        AsksEnv
        → ((v : V) → g.get_node env_name ≡ some v → type_eq (type_of v) environment ≡ false)
        → Refused
    no_leaf : AsksLeaf → ((v : V) → g.get_node node_name ≡ some v → is_leaf v ≡ false) → Refused
    no_host :
        {v : V}
        → AsksMember
        → g.get_node (prefixed_node_name env_name node_name) ≡ none
        → g.get_node node_name ≡ some v
        → type_eq (type_of v) host ≡ false
        → Refused

  abbrev pub GetNodeSpec : Result (Option V) → Type 0
  GetNodeSpec (ok (some v)) = Picked v
  GetNodeSpec (ok none) = Absent
  GetNodeSpec (err e) = (e.kind ≡ node_not_found) × Refused

cons_apart : {x : ℕ} {xs : Str} → (x ∷ xs) ≢ []
cons_apart h = ground (arith, h)

none_found :
    {V : Type 0} (test : V → Bool) (o : Option V) → o ≡ none → (v : V) → o ≡ some v → test v ≡ false
none_found test o q v r = absurd (none-ne-some v (sym q ∙ r))

found_only :
    {V : Type 0} (test : V → Bool) (o : Option V) (u : V)
    → o ≡ some u
    → test u ≡ false
    → (v : V) → o ≡ some v
    → test v ≡ false
found_only test o u q f v r = ap test (some-injective v u (sym r ∙ q)) ∙ f

module _ {V : Type 0} (g : GraphInterface V) where
  of_type-env :
      (e n : Str)
      → AsksEnv g e n
      → (o : Option V) → g.get_node e ≡ o
      → GetNodeSpec g e n (of_type (λ t. type_eq t environment) g.node (prefixed_node_name e n) o)
  unfolding of_type
  of_type-env e n h none q = (
    refl,
    Refused.no_env h (none_found (λ u. type_eq (g.node.type u) environment) (g.get_node e) q),
  )
  of_type-env e n h (some v) q = elim (Bool-cases (type_eq (g.node.type v) environment)) [
    | inl t ↦ rw t (Picked.env h q t)
    | inr f ↦ rw f (
      refl,
      Refused.no_env h (found_only (λ u. type_eq (g.node.type u) environment) (g.get_node e) v q f),
    )
  ]

  of_type-leaf :
      (e n : Str)
      → AsksLeaf g e n
      → (o : Option V) → g.get_node n ≡ o
      → GetNodeSpec g e n
          (of_type (λ t. type_eq t string || type_eq t host) g.node (prefixed_node_name e n) o)
  unfolding of_type
  of_type-leaf e n h none q =
      (refl, Refused.no_leaf h (none_found (is_leaf g e n) (g.get_node n) q))
  of_type-leaf e n h (some v) q = elim (Bool-cases (is_leaf g e n v)) [
    | inl t ↦ rw t (Picked.leaf h q t)
    | inr f ↦ rw f (refl, Refused.no_leaf h (found_only (is_leaf g e n) (g.get_node n) v q f))
  ]

  bare_node-member :
      (e n : Str)
      → AsksMember g e n
      → (o : Option V) → g.get_node (prefixed_node_name e n) ≡ o
      → (p : Option V) → g.get_node n ≡ p
      → GetNodeSpec g e n (or_else o (bare_node g.node (prefixed_node_name e n) p))
  unfolding bare_node
  bare_node-member e n h (some v) q p r = Picked.member h q
  bare_node-member e n h none q none r = Absent.missing h q r
  bare_node-member e n h none q (some v) r = elim (Bool-cases (type_eq (g.node.type v) host)) [
    | inl t ↦ rw t (Picked.bare h q r t)
    | inr f ↦ rw f (refl, Refused.no_host h q r f)
  ]

  -- What a lookup by an environment and a name gives is decided by five cases. If both are left out it
  -- finds nothing. If the name is left out or is that of the environment, it picks the node of the
  -- environment's name, and throws exactly if there is none or it is no ENVIRONMENT. If only the
  -- environment is left out, it picks the node of the name, and throws exactly if there is none or it
  -- is neither a STRING nor a HOST. Else it picks the node whose name has the environment as prefix;
  -- or, if there is none, the node of the bare name, and throws exactly if there is one that is no
  -- HOST, and finds nothing if there is none. Whatever it throws is that a node is not found.
  pub get_node_lem : (e n : Str) → GetNodeSpec g e n (get_node g e n)
  unfolding get_node
  get_node_lem [] [] = Absent.unnamed refl refl
  get_node_lem [] (b ∷ n) = of_type-leaf [] (b ∷ n) (refl, cons_apart) (g.get_node (b ∷ n)) refl
  get_node_lem (a ∷ e) [] = of_type-env (a ∷ e) [] (cons_apart, inl refl) (g.get_node (a ∷ e)) refl
  get_node_lem (a ∷ e) (b ∷ n) = elim (Bool-cases (str_eq (a ∷ e) (b ∷ n))) [
    | inl q ↦ rw q (
        of_type-env (a ∷ e) (b ∷ n) (cons_apart, inr (sym ((str_eq_iff (a ∷ e) (b ∷ n)).0 q)))
          (g.get_node (a ∷ e)) refl)
    | inr q ↦
        let apart : (b ∷ n) ≢ (a ∷ e) =
          λ h. Bool-apart (sym ((str_eq_iff (a ∷ e) (b ∷ n)).1 (sym h)) ∙ q) in
        rw q (
          bare_node-member (a ∷ e) (b ∷ n) (cons_apart, (cons_apart, apart))
            (g.get_node (prefixed_node_name (a ∷ e) (b ∷ n))) refl (g.get_node (b ∷ n)) refl)
  ]

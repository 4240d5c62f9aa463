-- ===== src/Api/Found.antt =====
-- What `all_clusters` and the searches for a key find.
use rangexx.Base.{
  ℕ, ◌+◌, ◌≤◌, ◌≡◌, refl, ap, ◌∙◌, inl, inr, true, false, Option, none, some, List, [], ◌∷◌, Str,
  All, ◌||◌, str_eq_iff, elem, arith, Bool-cases,
}
use rangexx.Base.Results.{Result, ok, err, Kind, ◌>>=◌}
use rangexx.Search.Loop.{depth, Outcome, ended, stopped, out_of_fuel, seen, search}
use rangexx.Search.Ends.{weight, IsClosed, IsNamed, Within}
use rangexx.Search.Reach.{All-In, seen_first, Distinct, Reaches}
use rangexx.Search.Explored.{Explored, SearchSpec, search_lem}
use rangexx.Node.Info.{NodeType, cluster, type_eq}
use rangexx.Graph.Interface.{NodeIface, GraphInterface}
use rangexx.Api.Lookup.{required, names_under}
use rangexx.Api.Searches.{found_of_type, never, visited_of, all_clusters}

-- Objects of one name are loaded from the same record.
pub record Alike {V : Type 0} (node : NodeIface V) : Type 0 where
  pub type : (u v : V) → node.name u ≡ node.name v → node.type u ≡ node.type v
  pub forward : IsNamed node.name node.forward_edges
  pub reverse : IsNamed node.name node.reverse_edges
  pub tags : (u v : V) → node.name u ≡ node.name v → node.tags u ≡ node.tags v

-- The listed nodes are all that edges in this direction lead to, and all that are looked up; and the
-- fuel is enough for their edges.
pub record Finite {V : Type 0} (g : GraphInterface V) (edges : V → List V) (fuel : ℕ) (us : List V)
    : Type 0 where
  pub closed : IsClosed g.node.name edges us
  pub looked_up : (s : Str) (v : V) → g.get_node s ≡ some v → Within g.node.name edges us v
  pub enough : weight g.node.name edges [] us + 1 ≤ fuel

module _ {V : Type 0} (g : GraphInterface V) where
  -- The nodes of one type among those that can be reached, each name once.
  pub record Listed (type : NodeType) (starts found : List V) : Type 0 where
    pub sound :
        All
          (λ v.
            Reaches g.node.name g.node.forward_edges starts v
            × (type_eq (g.node.type v) type ≡ true))
          found
    pub complete :
        (v : V)
        → Reaches g.node.name g.node.forward_edges starts v
        → type_eq (g.node.type v) type ≡ true
        → seen g.node.name v found ≡ true
    pub once : Distinct g.node.name found

  abbrev name : V → Str
  name = g.node.name

  seen-found_of_type :
      (type : NodeType) (alike : Alike g.node) (v : V)
      → type_eq (g.node.type v) type ≡ true
      → (visited found : List V)
      → seen name v (found_of_type g.node type visited found)
        ≡ (seen name v visited || seen name v found)
  unfolding found_of_type seen elem
  seen-found_of_type type alike v h [] found = refl
  seen-found_of_type type alike v h (u ∷ visited) found =
      elim (Bool-cases (type_eq (g.node.type u) type)) [
        | inl t ↦ rw t (
            seen-found_of_type type alike v h visited (u ∷ found)
            ∙ ground (arith, seen_first name v u visited, seen_first name v u found))
        | inr f ↦ rw f (
            seen-found_of_type type alike v h visited found
            ∙ ground (
              arith,
              str_eq_iff (name v) (name u),
              alike.type v u,
              h,
              f,
              ap (λ (t : NodeType). type_eq t type),
            ))
      ]

  sound-found_of_type :
      (type : NodeType) (P : V → Type 0) (visited found : List V)
      → All P visited
      → All (λ v. P v × (type_eq (g.node.type v) type ≡ true)) found
      → All
          (λ v. P v × (type_eq (g.node.type v) type ≡ true))
          (found_of_type g.node type visited found)
  unfolding found_of_type
  sound-found_of_type type P [] found h k = k
  sound-found_of_type type P (u ∷ visited) found h k =
      elim (Bool-cases (type_eq (g.node.type u) type)) [
        | inl t ↦ rw t (sound-found_of_type type P visited (u ∷ found) h.1 ((h.0, t), k))
        | inr f ↦ rw f (sound-found_of_type type P visited found h.1 k)
      ]

  apart :
      (u : V) (found visited : List V)
      → seen name u visited ≡ false
      → All (λ w. seen name w found ≡ false) visited
      → All (λ w. seen name w (u ∷ found) ≡ false) visited
  unfolding seen elem
  apart u found [] h k = tt
  apart u found (w ∷ visited) h k = (
    ground (arith, h, k.0, str_eq_iff (name w) (name u), str_eq_iff (name u) (name w)),
    apart u found visited (ground (arith, h)) k.1,
  )

  once-found_of_type :
      (type : NodeType) (visited found : List V)
      → Distinct name visited
      → Distinct name found
      → All (λ w. seen name w found ≡ false) visited
      → Distinct name (found_of_type g.node type visited found)
  unfolding found_of_type
  once-found_of_type type [] found h k l = k
  once-found_of_type type (u ∷ visited) found h k l =
      elim (Bool-cases (type_eq (g.node.type u) type)) [
        | inl t ↦ rw t (
            once-found_of_type type visited (u ∷ found) h.1 (l.0, k)
              (apart u found visited h.0 l.1))
        | inr f ↦ rw f (once-found_of_type type visited found h.1 k l.1)
      ]

  Listed-found_of_type :
      (type : NodeType) (alike : Alike g.node) (starts visited : List V)
      → Explored name g.node.forward_edges never starts visited
      → Listed type starts (found_of_type g.node type visited [])
  Listed-found_of_type type alike starts visited p = record {
    sound =
        sound-found_of_type type (Reaches name g.node.forward_edges starts) visited [] p.sound tt;
    complete =
        λ v r t. ground (arith, seen-found_of_type type alike v t visited [], p.complete v r);
    once =
        once-found_of_type type visited [] p.once tt
          (All-In (λ w. seen name w [] ≡ false) visited λ w i. unfold seen elem in refl);
  }

  abbrev pub ClustersSpec : Str → Option V → Result (List Str) → Type 0
  ClustersSpec env_name none (ok names) = ⊥
  ClustersSpec env_name none (err e) = e ≡ record { kind = Kind.node_not_found; what = env_name }
  ClustersSpec env_name (some n) (ok names) =
      (found : List V) × ((names ≡ names_under g env_name found) × Listed cluster (n ∷ []) found)
  ClustersSpec env_name (some n) (err e) = ⊥

  -- In a finite graph, `all_clusters` throws exactly if there is no node of the name, and then that it
  -- is not found. Else it ends, with the names, without the prefix, of exactly the clusters that can
  -- be reached from the node by forward edges, each once.
  pub all_clusters_lem :
      (alike : Alike g.node) (fuel : ℕ) (us : List V)
      → Finite g g.node.forward_edges fuel us
      → (env_name : Str)
      → ClustersSpec env_name (g.get_node env_name) (all_clusters g fuel env_name)
  unfolding all_clusters
  all_clusters_lem alike fuel us finite env_name = by_node (g.get_node env_name) refl
    where
      listed :
          (n : V) (o : Outcome V)
          → SearchSpec name g.node.forward_edges never (n ∷ []) o
          → ClustersSpec env_name (some n) (
              visited_of o >>= λ visited.
              ok (names_under g env_name (found_of_type g.node cluster visited [])))
      listed n (ended visited) p = (
        found_of_type g.node cluster visited [],
        (refl, Listed-found_of_type cluster alike (n ∷ []) visited p),
      )
      listed n (stopped v visited) p = ground (arith, p)
      listed n out_of_fuel p = p

      by_node :
          (o : Option V)
          → g.get_node env_name ≡ o
          → ClustersSpec env_name o (
              required env_name o >>= λ n.
              visited_of (search name g.node.forward_edges depth never fuel [] (n ∷ []))
              >>= λ visited. ok (names_under g env_name (found_of_type g.node cluster visited [])))
      by_node none e = refl
      by_node (some n) e =
          listed n (search name g.node.forward_edges depth never fuel [] (n ∷ [])) (
            search_lem name g.node.forward_edges alike.forward us finite.closed depth never fuel
              (n ∷ []) (finite.looked_up env_name n e, tt) finite.enough)

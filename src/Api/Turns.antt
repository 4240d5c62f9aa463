-- ===== src/Api/Turns.antt =====
-- What one turn of a search in `nearest_common_ancestor` keeps.
use rangexx.Base.{
  ℕ, suc, ◌+◌, ◌<◌, ◌≡◌, refl, ap, ◌∙◌, inl, inr, Bool, true, false, ◌&&◌, Option, none, some, List,
  [], ◌∷◌, ◌++◌, map, Str, str_eq, ltb, str_eq_iff, elem, All, arith, Bool-cases, length,
  length-append, if◌then◌else◌,
}
use rangexx.Search.Loop.{breadth, push_all, seen}
use rangexx.Search.Ends.{weight, weight-seen, IsClosed, IsNamed, Within, All-edges, All-push_all}
use rangexx.Search.Reach.{All-at, Reaches, Sound, Sound-old, Sound-new, seen_first, seen_same}
use rangexx.Search.More.{seen-found}
use rangexx.Graph.Interface.{NodeIface}
use rangexx.Api.Searches.{never}
use rangexx.Api.Ancestor.{Deep, Side, Best, depth_of, nearer, consider, turn}

abbrev pub nodes : {V : Type 0} → List (Deep V) → List V
nodes vs = map (λ x. x.0) vs

nodes-append :
    {V : Type 0} (vs : List (Deep V)) (es : List V) (d : ℕ)
    → nodes (vs ++ map (λ e. (e, d)) es) ≡ push_all breadth es (nodes vs)
unfolding push_all
nodes-append [] [] d = refl
nodes-append [] (e ∷ es) d = ap (λ us. e ∷ us) (nodes-append [] es d)
nodes-append (v ∷ vs) es d = ap (λ us. v.0 ∷ us) (nodes-append vs es d)

length-level :
    {V : Type 0} (d : ℕ) (es : List V) → length (map {B = Deep V} (λ e. (e, d)) es) ≡ length es
length-level d [] = refl
length-level d (e ∷ es) = omega (arith, length-level d es)

module _ {V : Type 0} (node : NodeIface V) where
  abbrev name : V → Str
  name = node.name

  abbrev up : V → List V
  up = node.reverse_edges

  -- A node that the search from `n` has come to has this name.
  pub record From (n a : V) : Type 0 where
    pub last : V
    pub path : Reaches node.name node.reverse_edges (n ∷ []) last
    pub named : node.name a ≡ node.name last

  -- What holds of one search between the turns.
  abbrev pub Searching : V → Side V → Type 0
  Searching n s = Sound name up never (n ∷ []) (nodes s.visited) (nodes s.queue)

  -- Either there is an ancestor of both, or none was visited by both.
  abbrev pub BestOk : V → V → List (Deep V) → List (Deep V) → Best V → Type 0
  BestOk n m mine others none =
      (e : V) → (seen name e (nodes mine) && seen name e (nodes others)) ≡ false
  BestOk n m mine others (some (a, d)) = From n a × From m a

  abbrev has_depth : Option ℕ → Bool
  has_depth none = false
  has_depth (some d) = true

  seen-depth_of :
      (e : V) (us : List (Deep V)) → seen name e (nodes us) ≡ has_depth (depth_of node e us)
  unfolding depth_of seen elem
  seen-depth_of e [] = refl
  seen-depth_of e ((u, d) ∷ us) = ground (arith, seen-depth_of e us)

  module _ (n m : V) (others : List (Deep V))
      (theirs : All (Reaches name up (m ∷ [])) (nodes others)) where
    From-seen : (v : V) → seen name v (nodes others) ≡ true → From m v
    From-seen v h =
        let (w, (i, same)) = seen-found name v (nodes others) h in
        record {
          last = w;
          path = All-at (Reaches name up (m ∷ [])) (nodes others) w theirs i;
          named = same;
        }

    nearer-BestOk :
        (v : V) (distance : ℕ) (mine us : List (Deep V)) (best : Best V)
        → From n v × From m v
        → BestOk n m us others best
        → BestOk n m mine others (nearer node v distance best)
    nearer-BestOk v distance mine us none p q = p
    nearer-BestOk v distance mine us (some (a, least)) p q = by_test (ltb distance least)
      where
        by_test :
            (b : Bool) → BestOk n m mine others (if b then some (v, distance) else some (a, least))
        by_test true = p
        by_test false = q

    -- `us` are the nodes that are visited before the turn, `mine` those after it.
    consider-BestOk :
        (v : V) (d : ℕ) (mine us : List (Deep V)) (best : Best V)
        → ((e : V)
            → seen name e (nodes mine) ≡ true
            → seen name e (nodes us) ≡ false
            → str_eq (name e) (name v) ≡ true)
        → Reaches name up (n ∷ []) v
        → BestOk n m us others best
        → BestOk n m mine others (consider node v d (depth_of node v others) best)
    consider-BestOk v d mine us best grown r q = by_depth (depth_of node v others) refl best q
      where
        by_depth :
            (o : Option ℕ)
            → depth_of node v others ≡ o
            → (best : Best V) → BestOk n m us others best
            → BestOk n m mine others (consider node v d o best)
        by_depth (some k) e best q =
            nearer-BestOk v (k + d) mine us best
              (
                record { last = v; path = r; named = refl },
                From-seen v (seen-depth_of v others ∙ ap has_depth e),
              )
              q
        by_depth none e (some (a, least)) q = q
        by_depth none e none q = λ x. ground (
          arith,
          q x,
          grown x,
          seen-depth_of v others ∙ ap has_depth e,
          str_eq_iff (name x) (name v),
          seen_same name x v (nodes others),
        )

  abbrev side : List (Deep V) → List (Deep V) → Side V
  side us q = record { visited = us; queue = q }

  module _ (n m : V) (others : List (Deep V))
      (theirs : All (Reaches name up (m ∷ [])) (nodes others)) where
    abbrev Turned : Side V × Best V → Type 0
    Turned (s, best) = Searching n s × BestOk n m s.visited others best

    pub turn_lem :
        (us q : List (Deep V)) (best : Best V)
        → Searching n (side us q)
        → BestOk n m us others best
        → Turned (turn node others (side us q) best)
    unfolding turn
    turn_lem us [] best p b = (p, b)
    turn_lem us ((v, d) ∷ rest) best p b = elim (Bool-cases (seen name v (nodes us))) [
      | inl old ↦ rw old (
        Sound-old name up never (n ∷ []) (nodes us) (nodes rest) v old p,
        consider-BestOk n m others theirs v d us us best (λ e h k. absurd (ground (arith, h, k)))
            p.waiting.0 b,
      )
      | inr new ↦ rw new (
        rw (nodes-append rest (up v) (suc d))
            (Sound-new name up breadth never (n ∷ []) (nodes us) (nodes rest) v new refl p),
        consider-BestOk n m others theirs v d ((v, d) ∷ us) us best
            (λ e h k. ground (arith, h, k, seen_first name e v (nodes us))) p.waiting.0 b,
      )
    ]

  -- The fuel that one search still needs.
  abbrev pub needs : List V → Side V → ℕ
  needs us s = weight name up (nodes s.visited) us + length s.queue

  pub turn_less :
      (same : IsNamed name up) (all : List V)
      → IsClosed name up all
      → (others us : List (Deep V)) (v : Deep V) (rest : List (Deep V)) (best : Best V)
      → All (Within name up all) (nodes (v ∷ rest))
      → needs all (turn node others (side us (v ∷ rest)) best).0 < needs all (side us (v ∷ rest))
  unfolding turn
  turn_less same all closed others us (v, d) rest best h =
      elim (Bool-cases (seen name v (nodes us))) [
        | inl old ↦ rw old (omega arith)
        | inr new ↦ rw new (
            omega (
              arith,
              weight-seen name up same (nodes us) all v new h.0,
              length-append rest (map (λ e. (e, suc d)) (up v)),
              length-level (suc d) (up v),
            ))
      ]

  pub turn-Within :
      (same : IsNamed name up) (all : List V)
      → IsClosed name up all
      → (others us q : List (Deep V)) (best : Best V) → All (Within name up all) (nodes q)
      → All (Within name up all) (nodes (turn node others (side us q) best).0.queue)
  unfolding turn
  turn-Within same all closed others us [] best h = h
  turn-Within same all closed others us ((v, d) ∷ rest) best h =
      elim (Bool-cases (seen name v (nodes us))) [
        | inl old ↦ rw old h.1
        | inr new ↦ rw new (
            rw (nodes-append rest (up v) (suc d)) (
              All-push_all (Within name up all) breadth (up v) (nodes rest)
                (All-edges name up (Within name up all) same all v closed h.0) h.1))
      ]

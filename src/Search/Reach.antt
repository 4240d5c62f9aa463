-- ===== src/Search/Reach.antt =====
-- A search visits what can be reached, each name once.
use rangexx.Base.{
  ◌≡◌, refl, ap, ◌∙◌, ◌⊎◌, inl, inr, Bool, true, false, ◌||◌, List, [], ◌∷◌, ◌++◌, map, Str, str_eq,
  str_eq_iff, str_eq_refl, elem, All, arith, Bool-cases,
}
use rangexx.Search.Loop.{Strategy, breadth, depth, push_all, seen}
use rangexx.Search.Ends.{All-push_all}

abbrev pub In : {A : Type 0} → A → List A → Type 0
In x [] = ⊥
In x (y ∷ ys) = (x ≡ y) ⊎ In x ys

pub All-In {κ} : {A : Type 0} (P : A → Type κ) (xs : List A) → ((x : A) → In x xs → P x) → All P xs
All-In P [] h = tt
All-In P (x ∷ xs) h = (h x (inl refl), All-In P xs (λ y k. h y (inr k)))

pub All-at {κ} : {A : Type 0} (P : A → Type κ) (xs : List A) (x : A) → All P xs → In x xs → P x
All-at P [] x h k = elim k [ ]
All-at P (y ∷ ys) x h (inl e) = rw e h.0
All-at P (y ∷ ys) x h (inr k) = All-at P ys x h.1 k

pub All-map {ℓ κ} :
    {A : Type ℓ} (P Q : A → Type κ) (xs : List A) → ((x : A) → P x → Q x) → All P xs → All Q xs
All-map P Q [] f h = tt
All-map P Q (x ∷ xs) f h = (f x h.0, All-map P Q xs f h.1)

seen-append :
    {V : Type 0} (name : V → Str) (v : V) (xs ys : List V)
    → seen name v (xs ++ ys) ≡ (seen name v xs || seen name v ys)
unfolding seen elem
seen-append name v [] ys = refl
seen-append name v (x ∷ xs) ys = ground (arith, seen-append name v xs ys)

pub seen-push_all :
    {V : Type 0} (name : V → Str) (v : V) (s : Strategy) (es rest : List V)
    → seen name v (push_all s es rest) ≡ (seen name v es || seen name v rest)
unfolding push_all
seen-push_all name v breadth es rest = ground (arith, seen-append name v rest es)
seen-push_all name v depth [] rest = unfold seen elem in refl
seen-push_all name v depth (e ∷ es) rest =
    seen-push_all name v depth es (e ∷ rest) ∙ (unfold seen elem in ground arith)

pub seen-In : {V : Type 0} (name : V → Str) (v : V) (xs : List V) → In v xs → seen name v xs ≡ true
unfolding seen elem
seen-In name v [] h = elim h [ ]
seen-In name v (x ∷ xs) (inl e) = rw e (ground (arith, str_eq_refl (name x)))
seen-In name v (x ∷ xs) (inr k) = ground (arith, seen-In name v xs k)

-- Those of one name are seen alike.
pub seen_same :
    {V : Type 0} (name : V → Str) (u v : V) (us : List V)
    → name u ≡ name v
    → seen name u us ≡ seen name v us
unfolding seen
seen_same name u v us e = ap (λ (s : Str). elem s (map name us)) e

pub seen_first :
    {V : Type 0} (name : V → Str) (e v : V) (vs : List V)
    → seen name e (v ∷ vs) ≡ (str_eq (name e) (name v) || seen name e vs)
unfolding seen elem
seen_first name e v vs = refl

-- No name occurs twice.
abbrev pub Distinct : {V : Type 0} → (V → Str) → List V → Type 0
Distinct name [] = Unit
Distinct name (v ∷ vs) = (seen name v vs ≡ false) × Distinct name vs

module _ {V : Type 0} (name : V → Str) (edges : V → List V) where
  -- The nodes on a path from one of the first ones.
  pub data Reaches (starts : List V) : V → Type 0 where
    here : {v : V} → In v starts → Reaches starts v
    next : {u v : V} → Reaches starts u → In v (edges u) → Reaches starts v

  abbrev pub Known : List V → List V → V → Type 0
  Known visited queue e = (seen name e visited || seen name e queue) ≡ true

  -- What holds at each round.
  pub record Sound (stop : V → Bool) (starts visited queue : List V) : Type 0 where
    pub done : All (Reaches starts) visited
    pub waiting : All (Reaches starts) queue
    pub frontier : All (λ u. All (Known visited queue) (edges u)) visited
    pub first : All (Known visited queue) starts
    pub once : Distinct name visited
    pub passed : All (λ v. stop v ≡ false) visited

  pub Known-old :
      (visited rest : List V) (v e : V)
      → seen name v visited ≡ true
      → Known visited (v ∷ rest) e
      → Known visited rest e
  unfolding seen elem
  Known-old visited rest v e h k = elim (Bool-cases (str_eq (name e) (name v))) [
    | inl q ↦
        let same : seen name e visited ≡ true =
          ap (λ (n : Str). elem n (map name visited)) ((str_eq_iff (name e) (name v)).0 q) ∙ h in
        ground (arith, same)
    | inr q ↦ ground (arith, k, q)
  ]

  pub Known-new :
      (s : Strategy) (visited rest : List V) (v e : V)
      → Known visited (v ∷ rest) e
      → Known (v ∷ visited) (push_all s (edges v) rest) e
  Known-new s visited rest v e k = ground (
    arith,
    k,
    seen-push_all name e s (edges v) rest,
    seen_first name e v visited,
    seen_first name e v rest,
  )

  pub Known-edges :
      (s : Strategy) (visited rest : List V) (v : V)
      → All (Known (v ∷ visited) (push_all s (edges v) rest)) (edges v)
  Known-edges s visited rest v =
      All-In (Known (v ∷ visited) (push_all s (edges v) rest)) (edges v)
        λ e k. ground (arith, seen-push_all name e s (edges v) rest, seen-In name e (edges v) k)

  pub Sound-old :
      (stop : V → Bool) (starts visited rest : List V) (v : V)
      → seen name v visited ≡ true
      → Sound stop starts visited (v ∷ rest)
      → Sound stop starts visited rest
  Sound-old stop starts visited rest v h p = record {
    done = p.done;
    waiting = p.waiting.1;
    frontier =
        All-map (λ u. All (Known visited (v ∷ rest)) (edges u))
          (λ u. All (Known visited rest) (edges u)) visited
          (λ u.
            All-map (Known visited (v ∷ rest)) (Known visited rest) (edges u)
              λ e. Known-old visited rest v e h)
          p.frontier;
    first =
        All-map (Known visited (v ∷ rest)) (Known visited rest) starts
          (λ e. Known-old visited rest v e h) p.first;
    once = p.once;
    passed = p.passed;
  }

  pub Sound-new :
      (s : Strategy) (stop : V → Bool) (starts visited rest : List V) (v : V)
      → seen name v visited ≡ false
      → stop v ≡ false
      → Sound stop starts visited (v ∷ rest)
      → Sound stop starts (v ∷ visited) (push_all s (edges v) rest)
  Sound-new s stop starts visited rest v h k p = record {
    done = (p.waiting.0, p.done);
    waiting =
        All-push_all (Reaches starts) s (edges v) rest
          (All-In (Reaches starts) (edges v) (λ e i. Reaches.next p.waiting.0 i)) p.waiting.1;
    frontier = (
      Known-edges s visited rest v,
      All-map (λ u. All (Known visited (v ∷ rest)) (edges u))
          (λ u. All (Known (v ∷ visited) (push_all s (edges v) rest)) (edges u)) visited
          (λ u.
            All-map (Known visited (v ∷ rest)) (Known (v ∷ visited) (push_all s (edges v) rest))
              (edges u) λ e. Known-new s visited rest v e)
          p.frontier,
    );
    first =
        All-map (Known visited (v ∷ rest)) (Known (v ∷ visited) (push_all s (edges v) rest)) starts
          (λ e. Known-new s visited rest v e) p.first;
    once = (h, p.once);
    passed = (k, p.passed);
  }

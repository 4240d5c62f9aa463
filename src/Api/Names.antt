-- ===== src/Api/Names.antt =====
-- librange/core/read_api.cpp: names with the prefix of their environment.
use rangexx.Base.{
  ℕ, ◌≡◌, refl, sym, ap, ◌∙◌, Bool, true, false, ◌&&◌, [], ◌∷◌, ◌++◌, Str, str_eq, str_eq_refl, All,
  if◌then◌else◌, arith, ◌==◌,
}

abbrev pub hash : ℕ
hash = 35

-- `s.size() > 0`
abbrev pub has_size : Str → Bool
has_size [] = false
has_size (c ∷ s) = true

unfoldable pub env_prefix : Str → Str
env_prefix env_name = if has_size env_name then env_name ++ hash ∷ [] else []

-- `s.substr(0, n)` and `s.substr(n)`
unfoldable pub first_of : Str → Str → Str
first_of [] s = []
first_of (c ∷ n) [] = []
first_of (c ∷ n) (b ∷ s) = b ∷ first_of n s

unfoldable pub rest_of : Str → Str → Str
rest_of [] s = s
rest_of (c ∷ n) [] = []
rest_of (c ∷ n) (b ∷ s) = rest_of n s

unfoldable pub unprefix_node_name : Str → Str → Str
unfolding env_prefix first_of rest_of
unprefix_node_name env_name node_name =
    if has_size env_name
      && (has_size node_name
          && str_eq (first_of (env_prefix env_name) node_name) (env_prefix env_name))
    then rest_of (env_prefix env_name) node_name
    else if has_size node_name
    then node_name
    else if has_size env_name
    then env_name
    else []

unfoldable pub prefixed_node_name : Str → Str → Str
unfolding env_prefix
prefixed_node_name env_name node_name =
    if has_size env_name && has_size node_name
    then env_prefix env_name ++ node_name
    else if has_size env_name
    then env_name
    else if has_size node_name
    then node_name
    else []

pub first_of-append : (p s : Str) → first_of p (p ++ s) ≡ p
unfolding first_of
first_of-append [] s = refl
first_of-append (c ∷ p) s = ap (λ (t : Str). c ∷ t) (first_of-append p s)

rest_of-append : (p s : Str) → rest_of p (p ++ s) ≡ s
unfolding rest_of
rest_of-append [] s = refl
rest_of-append (c ∷ p) s = rest_of-append p s

-- A name that is not empty is read back from the name with the prefix, whatever the environment.
pub unprefix-prefixed :
    (env_name node_name : Str)
    → has_size node_name ≡ true
    → unprefix_node_name env_name (prefixed_node_name env_name node_name) ≡ node_name
unfolding unprefix_node_name prefixed_node_name env_prefix
unprefix-prefixed [] [] h = ground (arith, h)
unprefix-prefixed [] (b ∷ n) h = refl
unprefix-prefixed (a ∷ e) [] h = ground (arith, h)
unprefix-prefixed (a ∷ e) (b ∷ n) h =
    rw (first_of-append (a ∷ e ++ hash ∷ []) (b ∷ n))
      (rw (str_eq_refl (a ∷ e ++ hash ∷ [])) (rest_of-append (a ∷ e ++ hash ∷ []) (b ∷ n)))

-- The text has no `#`.
abbrev pub Plain : Str → Type 0
Plain = All (λ c. (c == hash) ≡ false)

head_eq : (a b : ℕ) (s t : Str) → a ∷ s ≡ b ∷ t → a ≡ b
head_eq a b s t h = ground (arith, h)

tail_eq : (a b : ℕ) (s t : Str) → a ∷ s ≡ b ∷ t → s ≡ t
tail_eq a b s t h = ground (arith, h)

split_at_hash :
    (e d n m : Str) → Plain e → Plain d → e ++ hash ∷ n ≡ d ++ hash ∷ m → (e ≡ d) × (n ≡ m)
split_at_hash [] [] n m p q h = (refl, tail_eq hash hash n m h)
split_at_hash [] (b ∷ d) n m p q h =
    absurd (ground (arith, q.0, head_eq hash b n (d ++ hash ∷ m) h))
split_at_hash (a ∷ e) [] n m p q h =
    absurd (ground (arith, p.0, head_eq a hash (e ++ hash ∷ n) m h))
split_at_hash (a ∷ e) (b ∷ d) n m p q h =
    let rest = split_at_hash e d n m p.1 q.1 (tail_eq a b (e ++ hash ∷ n) (d ++ hash ∷ m) h) in
    (ground (arith, rest.0, head_eq a b (e ++ hash ∷ n) (d ++ hash ∷ m) h), rest.1)

hash_between : (e n : Str) → (e ++ hash ∷ []) ++ n ≡ e ++ hash ∷ n
hash_between [] n = refl
hash_between (a ∷ e) n = ap (λ (t : Str). a ∷ t) (hash_between e n)

prefixed_lem :
    (e n : Str) → has_size e ≡ true → has_size n ≡ true → prefixed_node_name e n ≡ e ++ hash ∷ n
unfolding prefixed_node_name env_prefix
prefixed_lem [] n h k = ground (arith, h)
prefixed_lem (a ∷ e) [] h k = ground (arith, k)
prefixed_lem (a ∷ e) (b ∷ n) h k = ap (λ (t : Str). a ∷ t) (hash_between e (b ∷ n))

-- Nodes of different environments have different names: if two names with prefixes are equal, and
-- the environments are named and have no `#` in their names, then the environments and the nodes are
-- the same.
pub prefixed-apart :
    (e d n m : Str)
    → Plain e
    → Plain d
    → has_size e ≡ true
    → has_size d ≡ true
    → has_size n ≡ true
    → has_size m ≡ true
    → prefixed_node_name e n ≡ prefixed_node_name d m
    → (e ≡ d) × (n ≡ m)
prefixed-apart e d n m p q he hd hn hm h =
    split_at_hash e d n m p q (sym (prefixed_lem e n he hn) ∙ h ∙ prefixed_lem d m hd hm)

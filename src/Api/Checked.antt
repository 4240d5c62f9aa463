-- ===== src/Api/Checked.antt =====
-- Which requests `verify_request` lets through (librange/core/stored_message.cpp).
use rangexx.Base.{
  ℕ, ◌≡◌, refl, sym, ap, inl, inr, true, false, Option, none, some, List, [], ◌∷◌, Str, codes,
  str_eq, str_eq_iff, arith, length, ◌==◌, Bool-cases,
}
use rangexx.Search.Reach.{In}
use rangexx.Paxos.Message.{Request}
use rangexx.Api.Requests.{Client, num_arguments, lookup, takes, verify_request, write_request}
use rangexx.Api.Calls.{
  One, Two, Three, Four, Call, call_one, call_two, call_three, call_four, name_one, name_two,
  name_three, name_four, method_of, args_of,
}

-- A request that names a call and has its arguments.
abbrev pub IsCall : Str → List Str → Type 0
IsCall method args = (call : Call) × ((method_of call ≡ method) × (args_of call ≡ args))

lookup-In :
    {A : Type 0} (key : Str) (t : List (Str × A)) (a : A) → lookup key t ≡ some a → In (key, a) t
unfolding lookup
lookup-In key [] a h = absurd (ground (arith, h))
lookup-In key ((k, b) ∷ t) a h = elim (Bool-cases (str_eq key k)) [
  | inl e ↦ inl (ground (arith, h, e, str_eq_iff key k))
  | inr e ↦ inr (lookup-In key t a (ground (arith, h, e)))
]

first : {A B : Type 0} {p q : A × B} → p ≡ q → p.0 ≡ q.0
first e = ap (λ p. p.0) e

second : {A B : Type 0} {p q : A × B} → p ≡ q → p.1 ≡ q.1
second e = ap (λ p. p.1) e

is_one :
    (f : One) (method : Str) (m : ℕ) (args : List Str)
    → ◌≡◌ {A = Str × ℕ} (method, m) (name_one f, 1)
    → (length args == m) ≡ true
    → IsCall method args
is_one f method m [] e h = absurd (ground (arith, second e, h))
is_one f method m (a ∷ []) e h = (call_one f a, (sym (first e), refl))
is_one f method m (a ∷ x ∷ xs) e h = absurd (ground (arith, second e, h))

is_two :
    (f : Two) (method : Str) (m : ℕ) (args : List Str)
    → ◌≡◌ {A = Str × ℕ} (method, m) (name_two f, 2)
    → (length args == m) ≡ true
    → IsCall method args
is_two f method m [] e h = absurd (ground (arith, second e, h))
is_two f method m (a ∷ []) e h = absurd (ground (arith, second e, h))
is_two f method m (a ∷ b ∷ []) e h = (call_two f a b, (sym (first e), refl))
is_two f method m (a ∷ b ∷ x ∷ xs) e h = absurd (ground (arith, second e, h))

is_three :
    (f : Three) (method : Str) (m : ℕ) (args : List Str)
    → ◌≡◌ {A = Str × ℕ} (method, m) (name_three f, 3)
    → (length args == m) ≡ true
    → IsCall method args
is_three f method m [] e h = absurd (ground (arith, second e, h))
is_three f method m (a ∷ []) e h = absurd (ground (arith, second e, h))
is_three f method m (a ∷ b ∷ []) e h = absurd (ground (arith, second e, h))
is_three f method m (a ∷ b ∷ c ∷ []) e h = (call_three f a b c, (sym (first e), refl))
is_three f method m (a ∷ b ∷ c ∷ x ∷ xs) e h = absurd (ground (arith, second e, h))

is_four :
    (f : Four) (method : Str) (m : ℕ) (args : List Str)
    → ◌≡◌ {A = Str × ℕ} (method, m) (name_four f, 4)
    → (length args == m) ≡ true
    → IsCall method args
is_four f method m [] e h = absurd (ground (arith, second e, h))
is_four f method m (a ∷ []) e h = absurd (ground (arith, second e, h))
is_four f method m (a ∷ b ∷ []) e h = absurd (ground (arith, second e, h))
is_four f method m (a ∷ b ∷ c ∷ []) e h = absurd (ground (arith, second e, h))
is_four f method m (a ∷ b ∷ c ∷ d ∷ []) e h = (call_four f a b c d, (sym (first e), refl))
is_four f method m (a ∷ b ∷ c ∷ d ∷ x ∷ xs) e h = absurd (ground (arith, second e, h))

is_listed :
    (method : Str) (m : ℕ) (args : List Str)
    → In (method, m) num_arguments
    → (length args == m) ≡ true
    → IsCall method args
unfolding num_arguments
is_listed method m args (inl e) h = is_one One.create_env method m args e h
is_listed method m args (inr (inl e)) h = is_one One.remove_env method m args e h
is_listed method m args (inr (inr (inl e))) h = is_two Two.add_cluster_to_env method m args e h
is_listed method m args (inr (inr (inr (inl e)))) h =
    is_two Two.remove_cluster_from_env method m args e h
is_listed method m args (inr (inr (inr (inr (inl e))))) h =
    is_three Three.add_cluster_to_cluster method m args e h
is_listed method m args (inr (inr (inr (inr (inr (inl e)))))) h =
    is_three Three.remove_cluster_from_cluster method m args e h
is_listed method m args (inr (inr (inr (inr (inr (inr (inl e))))))) h =
    is_two Two.remove_cluster method m args e h
is_listed method m args (inr (inr (inr (inr (inr (inr (inr (inl e)))))))) h =
    is_three Three.add_host_to_cluster method m args e h
is_listed method m args (inr (inr (inr (inr (inr (inr (inr (inr (inl e))))))))) h =
    is_three Three.remove_host_from_cluster method m args e h
is_listed method m args (inr (inr (inr (inr (inr (inr (inr (inr (inr (inl e)))))))))) h =
    is_one One.add_host method m args e h
is_listed method m args (inr (inr (inr (inr (inr (inr (inr (inr (inr (inr (inl e))))))))))) h =
    is_two Two.remove_host method m args e h
is_listed method m args (inr (inr (inr (inr (inr (inr (inr (inr (inr (inr (inr (inl e))))))))))))
      h =
    is_four Four.add_node_key_value method m args e h
is_listed method m args
      (inr (inr (inr (inr (inr (inr (inr (inr (inr (inr (inr (inr (inl e))))))))))))) h =
    is_four Four.remove_node_key_value method m args e h
is_listed method m args
      (inr (inr (inr (inr (inr (inr (inr (inr (inr (inr (inr (inr (inr (inl e)))))))))))))) h =
    is_three Three.remove_key_from_node method m args e h
is_listed method m args
      (inr (inr (inr (inr (inr (inr (inr (inr (inr (inr (inr (inr (inr (inr (inl e)))))))))))))))
      h =
    is_four Four.add_node_ext_dependency method m args e h
is_listed method m args
      (inr
        (inr (inr (inr (inr (inr (inr (inr (inr (inr (inr (inr (inr (inr (inr (inl e))))))))))))))))
      h =
    is_four Four.remove_node_ext_dependency method m args e h
is_listed method m args
      (inr
        (inr (inr (inr (inr (inr (inr (inr (inr (inr (inr (inr (inr (inr (inr (inr i))))))))))))))))
      h =
    elim i [ ]

pub verified-IsCall :
    (req : Request)
    → verify_request req ≡ true
    → str_eq req.method (codes "none") ≡ false
    → IsCall req.method req.args
unfolding verify_request
verified-IsCall req h k = by_entry (lookup req.method num_arguments) refl (ground (arith, h, k))
  where
    by_entry :
        (o : Option ℕ)
        → lookup req.method num_arguments ≡ o
        → takes (length req.args) o ≡ true
        → IsCall req.method req.args
    by_entry none e t = absurd (ground (arith, t))
    by_entry (some m) e t =
        is_listed req.method m req.args (lookup-In req.method num_arguments m e) t

-- Every request that the API makes for a call passes the check.
pub call_verified :
    (c : Client) (call : Call)
    → verify_request (write_request c (method_of call) (args_of call)) ≡ true
unfolding verify_request write_request num_arguments lookup str_eq
call_verified c (call_one One.create_env x) = refl
call_verified c (call_one One.remove_env x) = refl
call_verified c (call_one One.add_host x) = refl
call_verified c (call_two Two.add_cluster_to_env x y) = refl
call_verified c (call_two Two.remove_cluster_from_env x y) = refl
call_verified c (call_two Two.remove_cluster x y) = refl
call_verified c (call_two Two.remove_host x y) = refl
call_verified c (call_three Three.add_cluster_to_cluster x y z) = refl
call_verified c (call_three Three.remove_cluster_from_cluster x y z) = refl
call_verified c (call_three Three.add_host_to_cluster x y z) = refl
call_verified c (call_three Three.remove_host_from_cluster x y z) = refl
call_verified c (call_three Three.remove_key_from_node x y z) = refl
call_verified c (call_four Four.add_node_key_value w x y z) = refl
call_verified c (call_four Four.remove_node_key_value w x y z) = refl
call_verified c (call_four Four.add_node_ext_dependency w x y z) = refl
call_verified c (call_four Four.remove_node_ext_dependency w x y z) = refl

-- ===== src/Node/Values.antt =====
-- The values of one tag: what each version of the key has, and how `put_values` changes it.
use rangexx.Base.{
  ℕ, suc, ◌≤◌, ◌<◌, ◌≡◌, refl, inl, inr, Bool, true, false, ◌&&◌, ◌||◌, List, [], ◌∷◌, All, Str,
  str_eq, str_eq_iff, elem, arith, if◌then◌else◌, Bool-cases, sym, ◌∙◌,
}
use rangexx.Node.Versions.{
  has_version, has_version-older, has_version_self, contains, contains-Below,
  add_unique_new_version, Below, Below-mono,
}
use rangexx.Node.Info.{TagValue}
use rangexx.Node.Tags.{push_value, get_map_value, put_value, put_values}

-- No version of a value is later than the version of its key.
abbrev pub ValuesBelow : ℕ → List TagValue → Type 0
ValuesBelow b xs = All (λ x. Below b x.versions) xs

pub ValuesBelow-mono : (b c : ℕ) (xs : List TagValue) → b ≤ c → ValuesBelow b xs → ValuesBelow c xs
ValuesBelow-mono b c [] h p = tt
ValuesBelow-mono b c (x ∷ xs) h p = (Below-mono b c x.versions h p.0, ValuesBelow-mono b c xs h p.1)

push_value-Below :
    (w b : ℕ) (s : Str) (vs : List ℕ) (rest : List Str)
    → b ≤ w
    → Below b vs
    → push_value w s vs rest ≡ rest
unfolding push_value
push_value-Below w b s [] rest h p = refl
push_value-Below w b s (v ∷ vs) rest h p = ground arith

push_value_lem :
    (w b : ℕ) (s : Str) (vs : List ℕ) (rest : List Str)
    → Below b vs
    → push_value w s vs rest ≡ (if has_version w vs then s ∷ rest else rest)
unfolding push_value has_version
push_value_lem w b s [] rest p = refl
push_value_lem w b s (v ∷ vs) rest p =
    ground (arith, push_value_lem w v s vs rest p.1, push_value-Below w v s vs rest)

get_map_value-cons :
    (w b : ℕ) (x : TagValue) (xs : List TagValue)
    → Below b x.versions
    → get_map_value w (x ∷ xs)
      ≡ (if has_version w x.versions then x.content ∷ get_map_value w xs else get_map_value w xs)
unfolding get_map_value
get_map_value-cons w b x xs p = push_value_lem w b x.content x.versions (get_map_value w xs) p

contains-eq-has_version :
    (w : ℕ) (vs : List ℕ) → Below (suc w) vs → contains w vs ≡ has_version w vs
unfolding contains has_version
contains-eq-has_version w [] p = refl
contains-eq-has_version w (v ∷ vs) p = ground (arith, contains-Below v w vs)

module _ (ver : ℕ) where
  -- A value at the newest version.
  abbrev at_new : List ℕ → List ℕ
  at_new vs = add_unique_new_version ver vs

  at_new-now : (vs : List ℕ) → Below (suc ver) vs → has_version ver (at_new vs) ≡ true
  unfolding add_unique_new_version
  at_new-now vs p = ground (arith, contains-eq-has_version ver vs p, has_version_self ver vs)

  at_new-past : (w : ℕ) (vs : List ℕ) → w < ver → has_version w (at_new vs) ≡ has_version w vs
  unfolding add_unique_new_version
  at_new-past w vs h = ground (arith, has_version-older w ver vs h)

  Below-drop : (vs : List ℕ) → Below (suc ver) vs → has_version ver vs ≡ false → Below ver vs
  unfolding has_version
  Below-drop [] p h = tt
  Below-drop (v ∷ vs) p h = (ground arith, p.1)

  at_new-Below : (vs : List ℕ) → Below (suc ver) vs → Below (suc ver) (at_new vs)
  unfolding add_unique_new_version
  at_new-Below vs p = elim (Bool-cases (contains ver vs)) [
    | inl c ↦ rw c p
    | inr c ↦ rw c (omega arith, Below-drop vs p (sym (contains-eq-has_version ver vs p) ∙ c))
  ]

  pub put_value-ValuesBelow :
      (s : Str) (xs : List TagValue)
      → ValuesBelow (suc ver) xs
      → ValuesBelow (suc ver) (put_value ver s xs)
  unfolding put_value
  put_value-ValuesBelow s [] p = (at_new-Below [] tt, tt)
  put_value-ValuesBelow s (x ∷ xs) p = elim (Bool-cases (str_eq s x.content)) [
    | inl e ↦ rw e (at_new-Below x.versions p.0, p.1)
    | inr e ↦ rw e (p.0, put_value-ValuesBelow s xs p.1)
  ]

  abbrev bumped : TagValue → TagValue
  bumped x = record x { versions = at_new x.versions }

  abbrev blank : Str → TagValue
  blank s = record { content = s; versions = [] }

  get_map_value-bumped :
      (w : ℕ) (x : TagValue) (xs : List TagValue)
      → Below (suc ver) x.versions
      → get_map_value w (bumped x ∷ xs) ≡ (
          if has_version w (at_new x.versions)
          then x.content ∷ get_map_value w xs
          else get_map_value w xs)
  get_map_value-bumped w x xs p =
      get_map_value-cons w (suc ver) (bumped x) xs (at_new-Below x.versions p)

  get_map_value-nil : (w : ℕ) → get_map_value w [] ≡ []
  unfolding get_map_value
  get_map_value-nil w = refl

  put_value-past :
      (w : ℕ) (s : Str) (xs : List TagValue)
      → ValuesBelow (suc ver) xs
      → w < ver
      → get_map_value w (put_value ver s xs) ≡ get_map_value w xs
  unfolding put_value
  put_value-past w s [] p h =
      rw (get_map_value-bumped w (blank s) [] tt, at_new-past w [] h)
        (unfold has_version get_map_value in refl)
  put_value-past w s (x ∷ xs) p h = elim (Bool-cases (str_eq s x.content)) [
    | inl e ↦ rw (
      e,
      get_map_value-bumped w x xs p.0,
      get_map_value-cons w (suc ver) x xs p.0,
      at_new-past w x.versions h,
    )
    | inr e ↦ rw (
      e,
      get_map_value-cons w (suc ver) x (put_value ver s xs) p.0,
      get_map_value-cons w (suc ver) x xs p.0,
      put_value-past w s xs p.1 h,
    )
  ]

  elem-if :
      (c : Bool) (t s : Str) (ss : List Str)
      → elem t (if c then s ∷ ss else ss) ≡ ((str_eq t s && c) || elem t ss)
  unfolding elem
  elem-if c t s ss = ground arith

  put_value-now :
      (s t : Str) (xs : List TagValue)
      → ValuesBelow (suc ver) xs
      → elem t (get_map_value ver (put_value ver s xs))
        ≡ (str_eq t s || elem t (get_map_value ver xs))
  unfolding put_value
  put_value-now s t [] p =
      rw (get_map_value-bumped ver (blank s) [] tt, at_new-now [] tt, get_map_value-nil)
        (unfold elem in refl)
  put_value-now s t (x ∷ xs) p = elim (Bool-cases (str_eq s x.content)) [
    | inl e ↦
        rw
          (
            e,
            get_map_value-bumped ver x xs p.0,
            get_map_value-cons ver (suc ver) x xs p.0,
            elem-if (has_version ver x.versions) t x.content (get_map_value ver xs),
            at_new-now x.versions p.0,
            (str_eq_iff s x.content).0 e,
          )
          (unfold elem in ground arith)
    | inr e ↦
        rw
          (
            e,
            get_map_value-cons ver (suc ver) x (put_value ver s xs) p.0,
            get_map_value-cons ver (suc ver) x xs p.0,
            elem-if (has_version ver x.versions) t x.content (get_map_value ver xs),
            elem-if (has_version ver x.versions) t x.content
                (get_map_value ver (put_value ver s xs)),
            put_value-now s t xs p.1,
          )
          (ground arith)
  ]

  pub put_values-ValuesBelow :
      (ss : List Str) (xs : List TagValue)
      → ValuesBelow (suc ver) xs
      → ValuesBelow (suc ver) (put_values ver ss xs)
  unfolding put_values
  put_values-ValuesBelow [] xs p = p
  put_values-ValuesBelow (s ∷ ss) xs p =
      put_values-ValuesBelow ss (put_value ver s xs) (put_value-ValuesBelow s xs p)

  pub put_values-past :
      (w : ℕ) (ss : List Str) (xs : List TagValue)
      → ValuesBelow (suc ver) xs
      → w < ver
      → get_map_value w (put_values ver ss xs) ≡ get_map_value w xs
  unfolding put_values
  put_values-past w [] xs p h = refl
  put_values-past w (s ∷ ss) xs p h =
      put_values-past w ss (put_value ver s xs) (put_value-ValuesBelow s xs p) h
      ∙ put_value-past w s xs p h

  put_values-add :
      (t : Str) (ss : List Str) (xs : List TagValue)
      → ValuesBelow (suc ver) xs
      → elem t (get_map_value ver (put_values ver ss xs))
        ≡ (elem t ss || elem t (get_map_value ver xs))
  unfolding put_values elem
  put_values-add t [] xs p = refl
  put_values-add t (s ∷ ss) xs p =
      rw
        (
          put_values-add t ss (put_value ver s xs) (put_value-ValuesBelow s xs p),
          put_value-now s t xs p,
        )
        (ground arith)

  get_map_value-none : (xs : List TagValue) → ValuesBelow ver xs → get_map_value ver xs ≡ []
  unfolding get_map_value
  get_map_value-none [] p = refl
  get_map_value-none (x ∷ xs) p =
      rw (push_value-Below ver ver x.content x.versions _ (omega arith) p.0)
        (get_map_value-none xs p.1)

  -- Put at a version that no value has yet, the values are exactly those given.
  pub put_values-now :
      (t : Str) (ss : List Str) (xs : List TagValue)
      → ValuesBelow ver xs
      → elem t (get_map_value ver (put_values ver ss xs)) ≡ elem t ss
  put_values-now t ss xs p =
      rw
        (
          put_values-add t ss xs (ValuesBelow-mono ver (suc ver) xs (omega arith) p),
          get_map_value-none xs p,
        )
        (unfold elem in ground arith)

-- ===== src/Api/Action.antt =====
-- The write API: code that can throw and changes the state of the graphs, which stays changed.
use rangexx.Base.{Bool, true, false, Option, none, some, Str}
use rangexx.Base.Results.{Result, ok, err, Kind}

abbrev pub Action : Type 0 → Type 0 → Type 0
Action S A = S → Result A × S

abbrev pub failed : {A : Type 0} → Result A → Bool
failed (ok a) = false
failed (err e) = true

module _ {S : Type 0} where
  abbrev pub pure : {A : Type 0} → A → Action S A
  pure a s = (ok a, s)

  abbrev pub raise : {A : Type 0} → Kind → Str → Action S A
  raise kind what s = (err (record { kind = kind; what = what }), s)

  infixl 5 ◌>>=◌ ◌>>◌
  abbrev pub ◌>>=◌ : {A B : Type 0} → Action S A → (A → Action S B) → Action S B
  ◌>>=◌ m f s = let (r, s') = m s in elim r [ ok a ↦ f a s' | err e ↦ (err e, s') ]

  abbrev pub ◌>>◌ : {A B : Type 0} → Action S A → Action S B → Action S B
  m >> k = m >>= λ _. k

  abbrev pub gets : {A : Type 0} → (S → A) → Action S A
  gets f s = (ok (f s), s)

  abbrev pub lift : {A : Type 0} → Result A → Action S A
  lift r s = (r, s)

  abbrev pub raise_if : Bool → Kind → Str → Action S Unit
  raise_if true kind what = raise kind what
  raise_if false kind what = pure tt

  abbrev pub or_raise : {A : Type 0} → Option A → Kind → Str → Action S A
  or_raise none kind what = raise kind what
  or_raise (some a) kind what = pure a

  -- An object on the stack: what its constructor and its destructor do; the destructor is told if it
  -- runs because of an exception.
  unfoldable pub scope : {A : Type 0} → (S → S) → (Bool → S → S) → Action S A → Action S A
  scope begin end body s = let (r, s') = body (begin s) in (r, end (failed r) s')

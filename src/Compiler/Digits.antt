-- ===== src/Compiler/Digits.antt =====
-- librange/compiler/expanding_visitor.cpp, `ASTSequence`: the digits at the end of the left word,
-- apart from how they are read.
use mathlib.Core.Path.{subst}
use mathlib.Core.List.{reverse, reverse-cons, reverse-reverse, append_assoc}
use rangexx.Base.{
  ℕ, ◌+◌, ◌-◌, ◌*◌, ◌^◌, ◌≤◌, ◌<◌, ◌≡◌, refl, sym, ap, ◌∙◌, ◌⊎◌, inl, inr, true, false, ◌&&◌,
  Option, none, some, [], ◌∷◌, ◌++◌, Str, All, if◌then◌else◌, arith, length, ltb, leb, ltb→lt,
  Bool-cases,
}
use rangexx.Compiler.Sequence.{is_digit, word, Scanned, scan}

-- The value of decimal digits, by their places.
abbrev pub decimal_value : Str → ℕ
decimal_value [] = 0
decimal_value (c ∷ ds) = (c - 48) * 10 ^ length ds + decimal_value ds

abbrev pub Digits : Str → Type 0
Digits = All (λ c. is_digit c ≡ true)

-- The text is empty, or its first character is such.
abbrev pub Begins : (ℕ → Type 0) → Str → Type 0
Begins P [] = Unit
Begins P (c ∷ w) = P c

-- The left word ends in these digits, and no digit stands before them.
pub record Left (lword lprefix ds : Str) : Type 0 where
  pub split : lword ≡ lprefix ++ ds
  pub all_digits : Digits ds
  pub longest : Begins (λ c. is_digit c ≡ false) (reverse lprefix)
  pub fits : decimal_value ds < word

-- The left word ends in digits that are too many, or whose value does not fit.
pub record TooGreat (lword : Str) : Type 0 where
  pub before : Str
  pub ds : Str
  pub split : lword ≡ before ++ ds
  pub all_digits : Digits ds
  pub great : (309 < length ds) ⊎ (word ≤ decimal_value ds)

abbrev pub ScanSpec : Str → Option Scanned → Type 0
ScanSpec lword none = TooGreat lword
ScanSpec lword (some l) =
    (ds : Str) × (Left lword (reverse l.rest) ds
      × ((l.num ≡ decimal_value ds) × (l.pad ≡ length ds)))

turned : (c : ℕ) (w ds : Str) → reverse (c ∷ w) ++ ds ≡ reverse w ++ c ∷ ds
turned c w ds = ap (λ (t : Str). t ++ ds) (reverse-cons c w) ∙ append_assoc (reverse w) (c ∷ []) ds

more_digits :
    (c p num : ℕ) (ds : Str)
    → p ≡ length ds
    → num ≡ decimal_value ds
    → num + (c - 48) * 10 ^ p ≡ decimal_value (c ∷ ds)
more_digits c p num ds e f = rw (e, f) (omega arith)

-- One digit more, if it is not too much.
by_test :
    (c : ℕ) (w ds : Str) (p num : ℕ)
    → Digits (c ∷ ds)
    → p ≡ length ds
    → num + (c - 48) * 10 ^ p ≡ decimal_value (c ∷ ds)
    → (num + (c - 48) * 10 ^ p < word
        → ScanSpec (reverse w ++ c ∷ ds) (scan w (p + 1) (num + (c - 48) * 10 ^ p)))
    → ScanSpec (reverse w ++ c ∷ ds) (
        if leb p 308 && ltb (num + (c - 48) * 10 ^ p) word
        then scan w (p + 1) (num + (c - 48) * 10 ^ p)
        else none)
by_test c w ds p num d e value later = elim (Bool-cases (leb p 308)) [
  | inr g ↦ rw g (record {
    before = reverse w;
    ds = c ∷ ds;
    split = refl;
    all_digits = d;
    great = inl (ground (arith, g, e));
  })
  | inl g ↦ elim (Bool-cases (ltb (num + (c - 48) * 10 ^ p) word)) [
    | inr k ↦
        rw (g, k)
          (record {
            before = reverse w;
            ds = c ∷ ds;
            split = refl;
            all_digits = d;
            great = inr (too_great value k);
          })
    | inl k ↦ rw (g, k) (later (ltb→lt (num + (c - 48) * 10 ^ p) word k))
  ]
]
  where
    too_great : {n m : ℕ} → n ≡ m → ltb n word ≡ false → word ≤ m
    too_great e k = ground (arith, e, k)

pub scan_lem :
    (w ds : Str) (p num : ℕ)
    → Digits ds
    → p ≡ length ds
    → num ≡ decimal_value ds
    → num < word
    → ScanSpec (reverse w ++ ds) (scan w p num)
unfolding scan
scan_lem [] ds p num d e f h = (
  ds,
  (record { split = refl; all_digits = d; longest = tt; fits = omega (arith, f, h) }, (f, e)),
)
scan_lem (c ∷ w) ds p num d e f h = elim (Bool-cases (is_digit c)) [
  | inr n ↦ rw n (
    ds,
    (
      record {
        split = refl;
        all_digits = d;
        longest = subst (Begins (λ x. is_digit x ≡ false)) (sym (reverse-reverse (c ∷ w))) n;
        fits = omega (arith, f, h);
      },
      (f, e),
    ),
  )
  | inl n ↦ rw n (
      subst
        (λ t. ScanSpec t (
          if leb p 308 && ltb (num + (c - 48) * 10 ^ p) word
          then scan w (p + 1) (num + (c - 48) * 10 ^ p)
          else none))
        (sym (turned c w ds))
        (by_test c w ds p num (n, d) e (more_digits c p num ds e f)
          λ k.
            scan_lem w (c ∷ ds) (p + 1) (num + (c - 48) * 10 ^ p) (n, d) (omega (arith, e))
              (more_digits c p num ds e f) k))
]

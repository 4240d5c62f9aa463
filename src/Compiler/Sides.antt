-- ===== src/Compiler/Sides.antt =====
-- librange/compiler/expanding_visitor.cpp, `ASTSequence`: what the two sides of a sequence are made of,
-- apart from how they are read.
use mathlib.Core.Path.{subst}
use mathlib.Core.List.{reverse, reverse-reverse, append-nil}
use rangexx.Graph.History.{length-reverse}
use rangexx.Base.{
  ℕ, ◌+◌, ◌%◌, ◌≤◌, ◌≡◌, ◌≢◌, refl, sym, ap, ◌∙◌, ◌⊎◌, inl, inr, max, true, false, Option, none,
  some, [], ◌∷◌, ◌++◌, Str, All, if◌then◌else◌, arith, length, ltb, length-append, ◌==◌, Bool-cases,
  Option-cases, str_eq, str_eq_iff, Bool-apart,
}
use rangexx.Base.Results.{Result, ok, err, ◌>>=◌, invalid_range_expression, undefined}
use rangexx.Api.Names.{first_of, rest_of, first_of-append}
use rangexx.Compiler.Digits.{decimal_value, Begins, Left, TooGreat, ScanSpec, scan_lem}
use rangexx.Compiler.Sequence.{
  is_alpha, word, Scanned, scan, before_alpha, from_alpha, Bounds, close_bounds, defined,
  sequence_bounds, after_prefix,
}

-- The right word without the prefix, if it begins with it.
abbrev pub Stripped : Str → Str → Str → Type 0
Stripped lprefix rword stripped =
    (rword ≡ lprefix ++ stripped) ⊎ ((stripped ≡ rword) × ((x : Str) → rword ≢ lprefix ++ x))

-- The two sides: a prefix and digits on the left; on the right, after the prefix if it stands there
-- too, a number up to the first letter, and a suffix.
pub record Sides (lword rword : Str) : Type 0 where
  pub lprefix : Str
  pub ds : Str
  pub stripped : Str
  pub number : Str
  pub suffix : Str
  pub left : Left lword lprefix ds
  pub strip : Stripped lprefix rword stripped
  pub right : stripped ≡ number ++ suffix
  pub plain : All (λ c. is_alpha c ≡ false) number
  pub lettered : Begins (λ c. is_alpha c ≡ true) suffix

-- How the right side is cut at its first letter.
cut_plain : (w : Str) → All (λ c. is_alpha c ≡ false) (before_alpha w)
unfolding before_alpha
cut_plain [] = tt
cut_plain (c ∷ w) = elim (Bool-cases (is_alpha c)) [
  | inl a ↦ rw a tt
  | inr a ↦ rw a (a, cut_plain w)
]

cut_lettered : (w : Str) → Begins (λ c. is_alpha c ≡ true) (from_alpha w)
unfolding from_alpha
cut_lettered [] = tt
cut_lettered (c ∷ w) = elim (Bool-cases (is_alpha c)) [
  | inl a ↦ rw a a
  | inr a ↦ rw a (cut_lettered w)
]

cut_whole : (w : Str) → w ≡ before_alpha w ++ from_alpha w
unfolding before_alpha from_alpha
cut_whole [] = refl
cut_whole (c ∷ w) = elim (Bool-cases (is_alpha c)) [
  | inl a ↦ rw a refl
  | inr a ↦ rw a (ap (λ (t : Str). c ∷ t) (cut_whole w))
]

same_head : (a b : ℕ) (s t : Str) → a ∷ s ≡ b ∷ t → a ≡ b
same_head a b s t h = ground (arith, h)

same_tail : (a b : ℕ) (s t : Str) → a ∷ s ≡ b ∷ t → s ≡ t
same_tail a b s t h = ground (arith, h)

first_and_rest : (p r : Str) → first_of p r ≡ p → r ≡ p ++ rest_of p r
unfolding first_of rest_of
first_and_rest [] r e = refl
first_and_rest (c ∷ p) [] e = ground (arith, e)
first_and_rest (c ∷ p) (b ∷ r) e =
    ap (λ (t : Str). b ∷ t) (first_and_rest p r (same_tail b c (first_of p r) p e))
    ∙ ap (λ (x : ℕ). x ∷ p ++ rest_of p r) (same_head b c (first_of p r) p e)

after_prefix_lem : (lc : Str → Option ℕ) (p r : Str) → Stripped p r (after_prefix lc p r)
unfolding str_eq first_of rest_of
after_prefix_lem lc p r = elim (Bool-cases (str_eq (first_of p r) p)) [
  | inl e ↦ rw e (inl (first_and_rest p r ((str_eq_iff (first_of p r) p).0 e)))
  | inr e ↦ rw e (
      inr (
        refl,
        λ x h.
            Bool-apart
              (sym ((str_eq_iff (first_of p r) p).1 (ap (first_of p) h ∙ first_of-append p x)) ∙ e),
      ))
]

-- The right number, which counts on from the left one if it is less.
abbrev pub upper : ℕ → ℕ → ℕ
upper l r = if ltb r l then (r + l) % word else r

module _ (lexical_cast : Str → Option ℕ) {lword rword : Str} where
  -- A side is wrong if it has no number.
  abbrev pub Wrong : Sides lword rword → Type 0
  Wrong p = (length p.ds ≡ 0) ⊎ ((length p.number ≡ 0) ⊎ (lexical_cast p.number ≡ none))

  -- What the sides ask for, if both are right.
  pub record Right (p : Sides lword rword) (b : Bounds) : Type 0 where
    pub left_number : 1 ≤ length p.ds
    pub right_number : 1 ≤ length p.number
    pub value : ℕ
    pub read : lexical_cast p.number ≡ some value
    pub bounds : b ≡ record {
      lprefix = p.lprefix;
      rsuffix = p.suffix;
      lnum = decimal_value p.ds;
      rnum = upper (decimal_value p.ds) value;
      pad = max (length p.ds) (length p.number);
    }

module _ (lexical_cast : Str → Option ℕ) (lword rword : Str) where
  abbrev pub BoundsSpec : Result Bounds → Type 0
  BoundsSpec (ok b) = (p : Sides lword rword) × Right lexical_cast p b
  BoundsSpec (err e) =
      ((e.kind ≡ invalid_range_expression) × ((p : Sides lword rword) × Wrong lexical_cast p))
      ⊎ ((e.kind ≡ undefined) × TooGreat lword)

  abbrev sides :
      (lprefix ds stripped : Str)
      → Left lword lprefix ds
      → Stripped lprefix rword stripped
      → Sides lword rword
  sides lprefix ds stripped l st = record {
    lprefix = lprefix;
    ds = ds;
    stripped = stripped;
    number = before_alpha stripped;
    suffix = from_alpha stripped;
    left = l;
    strip = st;
    right = cut_whole stripped;
    plain = cut_plain stripped;
    lettered = cut_lettered stripped;
  }

  close_bounds_lem :
      (l : Scanned) (ds stripped : Str)
      → Left lword (reverse l.rest) ds
      → l.num ≡ decimal_value ds
      → l.pad ≡ length ds
      → Stripped (reverse l.rest) rword stripped
      → BoundsSpec (close_bounds lexical_cast lword stripped l)
  unfolding close_bounds
  close_bounds_lem l ds stripped left num pad st =
      elim (Option-cases (lexical_cast (before_alpha stripped))) [
        | inl e ↦ rw (e, close_bounds) (inl (refl, (p, inr (inr e))))
        | inr (r, e) ↦
            rw (e, close_bounds)
              (elim (Bool-cases (length l.rest == length lword)) [
                | inl a ↦ rw a (inl (refl, (p, inl (ground (arith, a, on_left)))))
                | inr a ↦ elim (Bool-cases (length (from_alpha stripped) == length stripped)) [
                  | inl c ↦ rw (a, c) (inl (refl, (p, inr (inl (ground (arith, c, on_right))))))
                  | inr c ↦
                      rw (a, c)
                        (
                          p,
                          record {
                            left_number = ground (arith, a, on_left);
                            right_number = ground (arith, c, on_right);
                            value = r;
                            read = e;
                            bounds = rw (num, pad) refl;
                          },
                        )
                ]
              ])
      ]
    where
      p : Sides lword rword
      p = sides (reverse l.rest) ds stripped left st

      on_left : length lword ≡ length l.rest + length ds
      on_left =
          ap length left.split
          ∙ length-append (reverse l.rest) ds
          ∙ omega (arith, length-reverse l.rest)

      on_right : length stripped ≡ length (before_alpha stripped) + length (from_alpha stripped)
      on_right =
          ap length (cut_whole stripped)
          ∙ length-append (before_alpha stripped) (from_alpha stripped)

  pub sequence_bounds_lem : BoundsSpec (sequence_bounds lexical_cast lword rword)
  unfolding sequence_bounds
  sequence_bounds_lem = by_scan (scan (reverse lword) 0 0) (
      subst (λ t. ScanSpec t (scan (reverse lword) 0 0)) whole
        (scan_lem (reverse lword) [] 0 0 tt refl refl (omega arith)))
    where
      whole : reverse (reverse lword) ++ [] ≡ lword
      whole = append-nil (reverse (reverse lword)) ∙ reverse-reverse lword

      by_scan :
          (o : Option Scanned)
          → ScanSpec lword o
          → BoundsSpec (
              defined lexical_cast o >>= λ l.
              close_bounds lexical_cast lword (after_prefix lexical_cast (reverse l.rest) rword) l)
      by_scan none g = inr (refl, g)
      by_scan (some l) (ds, (left, (num, pad))) =
          close_bounds_lem l ds (after_prefix lexical_cast (reverse l.rest) rword) left num pad
            (after_prefix_lem lexical_cast (reverse l.rest) rword)

-- ===== src/Compiler/Count.antt =====
-- The loop of a sequence of words: what it counts, and when it does not end.
use mathlib.Core.List.{reverse}
use native.Mathlib.Decide.{dec_lt}
use rangexx.Base.{
  ℕ, zero, suc, ◌+◌, ◌-◌, ◌*◌, ◌%◌, ◌^◌, ◌≤◌, ◌<◌, ◌≡◌, refl, ap, ◌∙◌, inl, inr, Bool, true, false,
  not, ◌&&◌, choose, Option, none, some, List, [], ◌∷◌, map, Str, if◌then◌else◌, arith, ltb, leb,
  Bool-cases, Option-cases, leb→le,
}
use rangexx.Base.Results.{Result, ok, err, ◌>>=◌, Exception, Kind}
use rangexx.Compiler.Digits.{TooGreat}
use rangexx.Compiler.Sides.{Sides, Wrong, Right}
use rangexx.Compiler.Sequence.{
  is_digit, word, Scanned, scan, before_alpha, Bounds, close_bounds, child_text, count_up, defined,
  counted, sequence_bounds, sequence, after_prefix,
}

-- `count` numbers from `n` on.
abbrev pub from : ℕ → ℕ → List ℕ
from n zero = []
from n (suc count) = n ∷ from (n + 1) count

count_up_lem :
    (fuel n rnum : ℕ)
    → rnum + 1 < word
    → n ≤ rnum + 1
    → rnum + 1 - n ≤ fuel
    → count_up fuel n rnum ≡ some (from n (rnum + 1 - n))
unfolding count_up
count_up_lem zero n rnum h k l =
    let e : rnum + 1 - n ≡ 0 = omega (arith, l) in rw e (ground (arith, k, l))
count_up_lem (suc fuel) n rnum h k l = elim (Bool-cases (leb n rnum)) [
  | inl t ↦
      let le = leb→le n rnum t in
      let e : rnum + 1 - n ≡ suc (rnum + 1 - (n + 1)) = omega (arith, le) in
      let next : (n + 1) % word ≡ n + 1 = omega (arith, le, h) in
      let rest = count_up_lem fuel (n + 1) rnum h (omega (arith, le)) (omega (arith, l, le)) in
      rw e (ground (arith, t, ap (λ (m : ℕ). count_up fuel m rnum) next ∙ rest))
  | inr f ↦ let e : rnum + 1 - n ≡ 0 = ground (arith, f) in rw e (ground (arith, f))
]

count_up_past : (fuel n rnum : ℕ) → rnum < n → count_up fuel n rnum ≡ some []
unfolding count_up
count_up_past zero n rnum h = ground (arith, h)
count_up_past (suc fuel) n rnum h = ground (arith, h)

count_up_endless : (fuel n : ℕ) → n < word → count_up fuel n (word - 1) ≡ none
unfolding count_up
count_up_endless zero n h = ground (arith, h)
count_up_endless (suc fuel) n h =
    ground (arith, h, count_up_endless fuel ((n + 1) % word) (omega arith))

-- The value of the digits is a uint32_t, if it is defined.
abbrev Narrow : Option Scanned → Type 0
Narrow none = Unit
Narrow (some l) = l.num < word

scan-Narrow : (w : Str) (p num : ℕ) → num < word → Narrow (scan w p num)
unfolding scan
scan-Narrow [] p num h = h
scan-Narrow (c ∷ w) p num h = choose Narrow (not (is_digit c)) _ _ h (
    choose_if (leb p 308 && ltb (num + (c - 48) * 10 ^ p) word)
      (λ t. scan-Narrow w (p + 1) (num + (c - 48) * 10 ^ p) (ground (arith, t))))
  where
    choose_if :
        (b : Bool)
        → (b ≡ true → Narrow (scan w (p + 1) (num + (c - 48) * 10 ^ p)))
        → Narrow (if b then scan w (p + 1) (num + (c - 48) * 10 ^ p) else none)
    choose_if true f = f refl
    choose_if false f = tt

-- `lexical_cast` gives uint32_t values only.
abbrev pub IsNarrow : (Str → Option ℕ) → Type 0
IsNarrow lexical_cast = (s : Str) (n : ℕ) → lexical_cast s ≡ some n → n < word

module _ (lexical_cast : Str → Option ℕ) where
  abbrev Counts : Result Bounds → Type 0
  Counts (err e) = Unit
  Counts (ok b) = (b.lnum < word) × (b.rnum < word)

  either :
      (c : Bool) (e : Exception) (b : Bounds)
      → b.lnum < word
      → b.rnum < word
      → Counts (if c then err e else ok b)
  either true e b h k = tt
  either false e b h k = (h, k)

  close_bounds-Counts :
      (narrow : IsNarrow lexical_cast) (lword rword : Str) (l : Scanned)
      → l.num < word
      → Counts (close_bounds lexical_cast lword rword l)
  unfolding close_bounds
  close_bounds-Counts narrow lword rword l h =
      elim (Option-cases (lexical_cast (before_alpha rword))) [
        | inl e ↦ rw (e, close_bounds) tt
        | inr (n, e) ↦
            rw (e, close_bounds)
              (either _ _ _ h
                (choose (λ m. m < word) (ltb n l.num) _ _ (omega arith) (narrow _ n e)))
      ]

  sequence_bounds-Counts :
      (narrow : IsNarrow lexical_cast) (lword rword : Str)
      → Counts (sequence_bounds lexical_cast lword rword)
  unfolding sequence_bounds
  sequence_bounds-Counts narrow lword rword =
      by_scan (scan (reverse lword) 0 0) (scan-Narrow (reverse lword) 0 0 (omega arith))
    where
      by_scan :
          (o : Option Scanned)
          → Narrow o
          → Counts (
              defined lexical_cast o >>= λ l.
              close_bounds lexical_cast lword (after_prefix lexical_cast (reverse l.rest) rword) l)
      by_scan none h = tt
      by_scan (some l) h =
          close_bounds-Counts narrow lword (after_prefix lexical_cast (reverse l.rest) rword) l h

  -- What the loop gives for its bounds.
  abbrev pub CountSpec : Result Bounds → Result (List Str) → Type 0
  CountSpec (err e) (err f) = f ≡ e
  CountSpec (err e) (ok texts) = ⊥
  CountSpec (ok b) (err e) = (e.kind ≡ Kind.out_of_fuel) × (b.rnum + 1 ≡ word)
  CountSpec (ok b) (ok texts) =
      (b.rnum + 1 < word)
      × ((b.lnum < word) × (texts ≡ map (child_text b) (from b.lnum (b.rnum + 1 - b.lnum))))

  pub counted_lem :
      (narrow : IsNarrow lexical_cast) (fuel : ℕ)
      → word ≤ fuel
      → (lword rword : Str)
      → CountSpec
          (sequence_bounds lexical_cast lword rword)
          (sequence lexical_cast fuel lword rword)
  unfolding sequence
  counted_lem narrow fuel enough lword rword =
      by_bounds (sequence_bounds lexical_cast lword rword)
        (sequence_bounds-Counts narrow lword rword)
    where
      ended :
          (b : Bounds)
          → b.lnum < word
          → b.rnum + 1 < word
          → count_up fuel b.lnum b.rnum ≡ some (from b.lnum (b.rnum + 1 - b.lnum))
      ended b h k = elim (dec_lt b.rnum b.lnum) [
        | yes l ↦
            let e : b.rnum + 1 - b.lnum ≡ 0 = omega (arith, l) in
            rw e (count_up_past fuel b.lnum b.rnum l)
        | no l ↦ count_up_lem fuel b.lnum b.rnum k (omega (arith, l)) (omega (arith, enough, k))
      ]

      by_bounds :
          (r : Result Bounds)
          → Counts r
          → CountSpec r (r >>= λ b. counted lexical_cast b (count_up fuel b.lnum b.rnum))
      by_bounds (err e) h = refl
      by_bounds (ok b) (hl, hr) = elim (dec_lt (b.rnum + 1) word) [
        | yes l ↦ rw (ended b hl l) (l, (hl, refl))
        | no l ↦
            let top : b.rnum ≡ word - 1 = omega (arith, l, hr) in
            let endless : count_up fuel b.lnum b.rnum ≡ none =
              ap (count_up fuel b.lnum) top ∙ count_up_endless fuel b.lnum hl in
            rw endless (refl, omega (arith, top))
      ]

  -- What a sequence gives: a text for each number, no end, or an exception.
  pub data SequenceSpec (lword rword : Str) : Result (List Str) → Type 0 where
    texts :
        {b : Bounds} (p : Sides lword rword)
        → Right lexical_cast p b
        → b.rnum + 1 < word
        → SequenceSpec lword rword (ok (map (child_text b) (from b.lnum (b.rnum + 1 - b.lnum))))
    endless :
        {b : Bounds} {e : Exception} (p : Sides lword rword)
        → Right lexical_cast p b
        → b.rnum + 1 ≡ word
        → e.kind ≡ Kind.out_of_fuel
        → SequenceSpec lword rword (err e)
    invalid :
        {e : Exception} (p : Sides lword rword)
        → Wrong lexical_cast p
        → e.kind ≡ Kind.invalid_range_expression
        → SequenceSpec lword rword (err e)
    too_great :
        {e : Exception}
        → TooGreat lword
        → e.kind ≡ Kind.undefined
        → SequenceSpec lword rword (err e)

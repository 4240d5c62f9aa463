-- ===== src/Compiler/Sequence.antt =====
-- librange/compiler/expanding_visitor.cpp, `ASTSequence`: texts with rising numbers.
use mathlib.Core.List.{reverse}
use rangexx.Base.{
  ℕ, zero, suc, ◌+◌, ◌-◌, ◌*◌, ◌/◌, ◌%◌, ◌^◌, max, Bool, true, false, not, ◌&&◌, ◌||◌, Option, none,
  some, List, [], ◌∷◌, ◌++◌, map, Str, codes, str_eq, if◌then◌else◌, length, ltb, leb, ◌==◌,
}
use rangexx.Base.Results.{Result, ok, throw, ◌>>=◌, invalid_range_expression, Kind}
use rangexx.Api.Names.{first_of, rest_of}

abbrev pub word : ℕ
word = 4294967296

unfoldable pub is_digit : ℕ → Bool
is_digit c = leb 48 c && leb c 57

unfoldable pub is_alpha : ℕ → Bool
is_alpha c = leb 65 c && leb c 90 || leb 97 c && leb c 122

-- What the scan from the end of the left word leaves: its value, its digits, and the letters before
-- them, the last one first.
pub record Scanned : Type 0 where
  pub num : ℕ
  pub pad : ℕ
  pub rest : Str

-- The lambda on the reversed word. A sum of doubles that does not fit a uint32_t has no defined value,
-- and the power is infinite above 10 ^ 308.
unfoldable pub scan : Str → ℕ → ℕ → Option Scanned
unfolding is_digit
scan [] p num = some (record { num = num; pad = p; rest = [] })
scan (c ∷ w) p num =
    let next = num + (c - 48) * 10 ^ p in
    let later = scan w (p + 1) next in
    if not (is_digit c)
    then some (record { num = num; pad = p; rest = c ∷ w })
    else if leb p 308 && ltb next word
    then later
    else none

unfoldable pub before_alpha : Str → Str
unfolding is_alpha
before_alpha [] = []
before_alpha (c ∷ w) = let rest = before_alpha w in if is_alpha c then [] else c ∷ rest

unfoldable pub from_alpha : Str → Str
unfolding is_alpha
from_alpha [] = []
from_alpha (c ∷ w) = let rest = from_alpha w in if is_alpha c then c ∷ w else rest

-- `er`: the sides that are wrong.
abbrev pub wrong_sides : Bool → Bool → Str
wrong_sides p1ok p2ok =
    (if p1ok then [] else codes "left ")
    ++ (if p2ok then [] else (if p1ok then [] else codes "and ") ++ codes "right ")

abbrev pub wrong : Bool → Bool → Str → Str → Str
wrong p1ok p2ok lword rword =
    codes "invalid "
    ++ (wrong_sides p1ok p2ok
        ++ (codes "portion of sequence: " ++ (lword ++ (codes ".." ++ rword))))

-- What the loop counts, and what it prints around it.
pub record Bounds : Type 0 where
  pub lprefix : Str
  pub rsuffix : Str
  pub lnum : ℕ
  pub rnum : ℕ
  pub pad : ℕ

-- `%s` prints what stands before the first zero byte.
unfoldable pub c_str : Str → Str
c_str [] = []
c_str (c ∷ s) = let rest = c_str s in if c == 0 then [] else c ∷ rest

-- `%d` of a number below 2 ^ 32 has at most ten digits.
unfoldable pub digits : ℕ → ℕ → Str → Str
digits zero n later = later
digits (suc f) n later =
    let longer = digits f (n / 10) ((48 + n % 10) ∷ later) in
    if ltb n 10 then (48 + n) ∷ later else longer

unfoldable pub zeros : ℕ → Str
zeros zero = []
zeros (suc n) = 48 ∷ zeros n

-- `%0*d`: the number is read as an int, a sign counts as a digit.
unfoldable pub padded : ℕ → ℕ → Str
unfolding digits zeros
padded pad n =
    if ltb n 2147483648
    then zeros (pad - length (digits 10 n [])) ++ digits 10 n []
    else 45 ∷ (zeros (pad - 1 - length (digits 10 (word - n) [])) ++ digits 10 (word - n) [])

unfoldable pub take {ℓ} : {A : Type ℓ} → ℕ → List A → List A
take zero xs = []
take (suc n) [] = []
take (suc n) (x ∷ xs) = x ∷ take n xs

-- `snprintf` into a buffer of 1023 bytes, the last of them zero.
unfoldable pub child_text : Bounds → ℕ → Str
unfolding c_str padded take
child_text b n = take 1022 (c_str b.lprefix ++ (padded b.pad n ++ c_str b.rsuffix))

-- The loop; n is a uint32_t.
unfoldable pub count_up : ℕ → ℕ → ℕ → Option (List ℕ)
count_up zero n rnum = if leb n rnum then none else some []
count_up (suc fuel) n rnum = elim (leb n rnum) [
  | false ↦ some []
  | true ↦ elim (count_up fuel ((n + 1) % word) rnum) [ none ↦ none | some ns ↦ some (n ∷ ns) ]
]

-- `lexical_cast` reads a uint32_t, if the text is one.
module _ (lexical_cast : Str → Option ℕ) where
  -- After the scan; `rword` is without the prefix of the left word.
  unfoldable pub close_bounds : Str → Str → Scanned → Result Bounds
  unfolding before_alpha from_alpha
  close_bounds lword rword l =
      let p1ok = not (length l.rest == length lword) in
      let p2ok = not (length (from_alpha rword) == length rword) in
      elim (lexical_cast (before_alpha rword)) [
        | none ↦ throw invalid_range_expression (wrong p1ok false lword rword)
        | some rnum ↦
            if not p1ok || not p2ok
            then throw invalid_range_expression (wrong p1ok p2ok lword rword)
            else ok (record {
              lprefix = reverse l.rest;
              rsuffix = from_alpha rword;
              lnum = l.num;
              rnum = if ltb rnum l.num then (rnum + l.num) % word else rnum;
              pad = max l.pad (length (before_alpha rword));
            })
      ]

  abbrev pub after_prefix : Str → Str → Str
  after_prefix lprefix rword =
      if str_eq (first_of lprefix rword) lprefix then rest_of lprefix rword else rword

  abbrev pub defined : Option Scanned → Result Scanned
  defined none = throw Kind.undefined []
  defined (some l) = ok l

  unfoldable pub sequence_bounds : Str → Str → Result Bounds
  unfolding scan close_bounds first_of rest_of str_eq
  sequence_bounds lword rword = defined (scan (reverse lword) 0 0) >>= λ l.
      close_bounds lword (after_prefix (reverse l.rest) rword) l

  abbrev pub counted : Bounds → Option (List ℕ) → Result (List Str)
  counted b none = throw Kind.out_of_fuel []
  counted b (some ns) = ok (map (child_text b) ns)

  unfoldable pub sequence : ℕ → Str → Str → Result (List Str)
  unfolding sequence_bounds count_up child_text
  sequence fuel lword rword =
      sequence_bounds lword rword >>= λ b. counted b (count_up fuel b.lnum b.rnum)

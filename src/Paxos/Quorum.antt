-- ===== src/Paxos/Quorum.antt =====
-- How many accepters a proposer and a learner want (stored/paxos_proposer.cpp, paxos_learner.cpp).
use rangexx.Base.{
  ℕ, suc, ◌+◌, ◌*◌, ◌/◌, ◌%◌, ◌^◌, ◌≤◌, ◌<◌, ◌≡◌, Bool, true, false, List, [], ◌∷◌, length,
  if◌then◌else◌, arith,
}

-- `std::ceil(n * 0.60)` as a uint16_t. The product in doubles is rounded to the whole number where
-- 3 n / 5 is one, and lies on the same side of all whole numbers elsewhere.
unfoldable pub quorum : ℕ → ℕ
quorum n = (3 * n + 4) / 5 % 2 ^ 16

quorum-least : (n : ℕ) → n < 2 ^ 16 → 3 * n ≤ 5 * quorum n
unfolding quorum
quorum-least n h = omega arith

-- How many elements pass the test.
unfoldable pub count {ℓ} : {A : Type ℓ} → (A → Bool) → List A → ℕ
count test [] = 0
count test (x ∷ xs) = if test x then suc (count test xs) else count test xs

-- Two tests that no element passes both share the elements of the list.
pub count-apart {ℓ} :
    {A : Type ℓ} (f g : A → Bool) (xs : List A)
    → ((x : A) → f x ≡ true → g x ≡ false)
    → count f xs + count g xs ≤ length xs
unfolding count
count-apart f g [] h = omega arith
count-apart f g (x ∷ xs) h = ground (arith, h x, count-apart f g xs h)

-- Of two tests that a quorum passes each, some element passes both: they cannot exclude each other.
pub quorum-overlap {ℓ} :
    {A : Type ℓ} (f g : A → Bool) (xs : List A)
    → 0 < length xs
    → length xs < 2 ^ 16
    → quorum (length xs) ≤ count f xs
    → quorum (length xs) ≤ count g xs
    → length xs < count f xs + count g xs
quorum-overlap f g xs any few p q = omega (arith, quorum-least (length xs) few)

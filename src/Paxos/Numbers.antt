-- ===== src/Paxos/Numbers.antt =====
-- The numbers under which a proposer proposes.
use rangexx.Base.{
  ℕ, suc, ◌+◌, ◌^◌, ◌≤◌, ◌<◌, ◌≡◌, max, Bool, true, false, List, [], ◌∷◌, Str, leb, ltb,
  if◌then◌else◌, length, All, choose, arith,
}
use rangexx.Paxos.Message.{RequestType, Request, AckType, Ack, same_type}
use rangexx.Paxos.Quorum.{quorum}
use rangexx.Paxos.Proposer.{
  Proposer, ack_count, highest_seen_proposal, next_number, numbered, prepare, propose, attempt,
}

-- The numbers of the NACKs among the answers are at most `n`.
abbrev pub Nacked : ℕ → List Ack → Type 0
Nacked n acks = All (λ (a : Ack). same_type AckType.nack a.type ≡ true → a.proposal_num ≤ n) acks

highest_seen_proposal-least :
    (n m b : ℕ) (acks : List Ack) → n ≤ b → m ≤ b → Nacked m acks → highest_seen_proposal n acks ≤ b
unfolding highest_seen_proposal
highest_seen_proposal-least n m b [] h k p = h
highest_seen_proposal-least n m b (a ∷ acks) h k p =
    highest_seen_proposal-least (if same_type AckType.nack a.type then max a.proposal_num n else n)
      m b acks (ground (arith, p.0)) k p.1

highest_seen_proposal-start : (n : ℕ) (acks : List Ack) → n ≤ highest_seen_proposal n acks
unfolding highest_seen_proposal
highest_seen_proposal-start n [] = omega arith
highest_seen_proposal-start n (a ∷ acks) = ground (
  arith,
  highest_seen_proposal-start (if same_type AckType.nack a.type then max a.proposal_num n else n)
      acks,
)

pub highest_seen_proposal-Nacked :
    (n : ℕ) (acks : List Ack) → Nacked (highest_seen_proposal n acks) acks
unfolding highest_seen_proposal
highest_seen_proposal-Nacked n [] = tt
highest_seen_proposal-Nacked n (a ∷ acks) = (
  λ h. ground (
    arith,
    h,
    highest_seen_proposal-start (if same_type AckType.nack a.type then max a.proposal_num n else n)
        acks,
  ),
  highest_seen_proposal-Nacked (if same_type AckType.nack a.type then max a.proposal_num n else n)
      acks,
)

-- The next number is above the one before and above all that were refused.
next_number_lem :
    (n m b : ℕ) (acks : List Ack)
    → n ≤ b
    → m ≤ b
    → Nacked m acks
    → b + 1 < 2 ^ 64
    → (n < next_number n acks) × (next_number n acks ≤ suc b)
unfolding next_number
next_number_lem n m b acks h k p r = (
  omega (arith, highest_seen_proposal-start n acks, highest_seen_proposal-least n m b acks h k p),
  omega (arith, highest_seen_proposal-least n m b acks h k p),
)

-- No answer refused at the next number or above it.
pub next_number-highest :
    (n m b : ℕ) (acks : List Ack)
    → n ≤ b
    → m ≤ b
    → Nacked m acks
    → b + 1 < 2 ^ 64
    → (a : ℕ) → a ≤ highest_seen_proposal n acks
    → a < next_number n acks
unfolding next_number
next_number-highest n m b acks h k p r a e =
    omega (arith, e, highest_seen_proposal-least n m b acks h k p)

abbrev pub is_propose : RequestType → Bool
is_propose RequestType.propose = true
is_propose _ = false

-- The numbers of the PROPOSE messages.
abbrev pub proposed : List Request → List ℕ
proposed [] = []
proposed (req ∷ reqs) =
    let rest = proposed reqs in if is_propose req.type then req.proposal_num ∷ rest else rest

-- The numbers rise strictly, from `n` on, and all are below `m`.
pub data Rise : ℕ → List ℕ → ℕ → Type 0 where
  done : {n m : ℕ} → n ≤ m → Rise n [] m
  more : {n x m : ℕ} {xs : List ℕ} → n ≤ x → Rise (suc x) xs m → Rise n (x ∷ xs) m

Rise-from : (n k m : ℕ) (xs : List ℕ) → n ≤ k → Rise k xs m → Rise n xs m
Rise-from n k m xs h (done p) = done (omega (arith, p))
Rise-from n k m xs h (more p q) = more (omega (arith, p)) q

abbrev RiseSpec : ℕ → Proposer × List Request → Type 0
RiseSpec n (p, out) = Rise n (proposed out) p.proposal_number

-- Each message of the loop has answers whose NACKs are at most `m`.
abbrev pub AllNacked : ℕ → List (List Str × (ℕ × List Ack)) → Type 0
AllNacked m world = All (λ (x : List Str × (ℕ × List Ack)). Nacked m x.1.1) world

module _ (serialize : Request → Str) (node_id : Str) (m : ℕ) (req : Request) where
  prepared :
      (accepters : List Str) (results : List Ack) (b : ℕ) (p : Proposer)
      → p.proposal_number ≤ b
      → m ≤ b
      → Nacked m results
      → b + 1 < 2 ^ 64
      → (p.proposal_number
          ≤ (prepare serialize node_id accepters results req p).1.0.proposal_number)
        × ((prepare serialize node_id accepters results req p).1.0.proposal_number ≤ suc b)
  unfolding prepare
  prepared accepters results b p h k a r =
      let ok = leb (quorum (length accepters)) (ack_count AckType.promise results) in
      let n = next_number_lem p.proposal_number m b results h k a r in
      choose (λ x. (p.proposal_number ≤ x) × (x ≤ suc b)) ok p.proposal_number
        (next_number p.proposal_number results) (omega arith) (omega (arith, n.0, n.1))

  -- Whatever the accepters answer, for as long as no number reaches the end of the 64 bits: the
  -- PROPOSE messages of the loop have strictly rising numbers, none below the one that the proposer
  -- began with, and the number that it ends with is above them all.
  pub attempt_lem :
      (preparing : Bool) (bow_out b : ℕ) (world : List (List Str × (ℕ × List Ack))) (p : Proposer)
      → p.proposal_number ≤ b
      → m ≤ b
      → AllNacked m world
      → b + length world < 2 ^ 64
      → Rise p.proposal_number
          (proposed (attempt serialize node_id preparing bow_out world req p).1)
          (attempt serialize node_id preparing bow_out world req p).0.proposal_number
  unfolding attempt prepare propose numbered
  attempt_lem preparing bow_out b [] p h k a r = done (omega arith)
  attempt_lem true bow_out b ((accepters, (now, results)) ∷ world) p h k a r =
      let ok = leb (quorum (length accepters)) (ack_count AckType.promise results) in
      let bow = if ok then bow_out else bow_out + 1 in
      let p' = (prepare serialize node_id accepters results req p).1.0 in
      let n = prepared accepters results b p h k a.0 (omega arith) in
      let onward = attempt_lem false bow (suc b) world p' n.1 (omega arith) a.1 (omega arith) in
      let again =
        attempt_lem true (bow_out + 1) (suc b) world p' n.1 (omega arith) a.1 (omega arith) in
      let goes = attempt serialize node_id false bow world req p' in
      let repeats = attempt serialize node_id true (bow_out + 1) world req p' in
      let onward' =
        Rise-from p.proposal_number p'.proposal_number goes.0.proposal_number (proposed goes.1) n.0
          onward in
      choose (RiseSpec p.proposal_number) ok goes (if ltb bow_out 42 then repeats else goes) onward'
        (choose (RiseSpec p.proposal_number) (ltb bow_out 42) repeats goes
          (Rise-from p.proposal_number p'.proposal_number repeats.0.proposal_number
            (proposed repeats.1) n.0 again)
          onward')
  attempt_lem false bow_out b ((accepters, (now, results)) ∷ world) p h k a r =
      let ok = leb (quorum (length p.accepters)) (ack_count AckType.accepted results) in
      let p' = (propose serialize node_id now results req p).1.0 in
      let n = next_number_lem p.proposal_number m b results h k a.0 (omega arith) in
      let again = attempt_lem true bow_out (suc b) world p' n.1 (omega arith) a.1 (omega arith) in
      let repeats = attempt serialize node_id true bow_out world req p' in
      let ends = done {n = suc p.proposal_number} n.0 in
      more (omega arith) (
        choose (RiseSpec (suc p.proposal_number)) ok (p', [])
          (if ltb bow_out 42 then repeats else (p', [])) ends
          (choose (RiseSpec (suc p.proposal_number)) (ltb bow_out 42) repeats (p', [])
            (Rise-from (suc p.proposal_number) p'.proposal_number repeats.0.proposal_number
              (proposed repeats.1) n.0 again)
            ends))

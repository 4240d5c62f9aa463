-- ===== src/Paxos/Agreement.antt =====
-- Accepters on which any proposers work, with any loss, order and repetition of messages: what a
-- quorum of them can have accepted under one proposal number.
use rangexx.Base.{
  ℕ, ◌^◌, ◌≤◌, ◌<◌, ◌≡◌, refl, sym, inl, inr, Bool, true, false, ◌||◌, ◌&&◌, List, [], ◌∷◌, Str,
  ◌==◌, length, arith, Bool-cases, ==_iff,
}
use mathlib.Core.Path.{subst}
use rangexx.Paxos.Message.{Request}
use rangexx.Paxos.Accepter.{make_accepter, event_task}
use rangexx.Paxos.Taught.{taught}
use rangexx.Paxos.Votes.{Climb, climb, number_list, event_task_lem}
use rangexx.Paxos.Quorum.{quorum, count, count-apart, quorum-overlap}

-- A request with this proposal number and checksum is among those for the learners.
unfoldable pub voted : ℕ → ℕ → List Request → Bool
voted number crc [] = false
voted number crc (req ∷ reqs) =
    ((req.proposal_num == number) && (req.crc == crc)) || voted number crc reqs

voted-Climb :
    (number crc b c : ℕ) (reqs : List Request)
    → number ≤ b
    → Climb b (number_list reqs) c
    → voted number crc reqs ≡ false
unfolding voted
voted-Climb number crc b c [] h p = refl
voted-Climb number crc b c (req ∷ reqs) h (climb g p) =
    ground (arith, g, h, voted-Climb number crc req.proposal_num c reqs (omega (arith, g)) p)

voted_once :
    (number crc other b c : ℕ) (reqs : List Request)
    → Climb b (number_list reqs) c
    → voted number crc reqs ≡ true
    → voted number other reqs ≡ true
    → crc ≡ other
unfolding voted
voted_once number crc other b c [] p h k = ground (arith, h)
voted_once number crc other b c (req ∷ reqs) (climb g p) h k =
    elim (Bool-cases (req.proposal_num == number)) [
      | inl e ↦ ground (
        arith,
        e,
        h,
        k,
        voted-Climb number crc req.proposal_num c reqs (ground (arith, e)) p,
        voted-Climb number other req.proposal_num c reqs (ground (arith, e)) p,
      )
      | inr e ↦
          voted_once number crc other req.proposal_num c reqs p (ground (arith, e, h))
            (ground (arith, e, k))
    ]

module _ (serialize : Request → Str) where
  -- An accepter, given by the number it finds at its start and the requests that reach it, has
  -- accepted a request with this number, and sent it to the learners with this checksum.
  abbrev pub votes : ℕ → ℕ → ℕ × List Request → Bool
  votes number crc (unset, reqs) =
      voted number crc (taught (event_task serialize reqs (make_accepter unset)).1)

  votes_once :
      (number crc other : ℕ) (x : ℕ × List Request)
      → votes number crc x ≡ true
      → votes number other x ≡ true
      → crc ≡ other
  votes_once number crc other (unset, reqs) h k =
      let (a, out) = event_task serialize reqs (make_accepter unset) in
      let m = (event_task_lem serialize reqs (make_accepter unset)).moved in
      voted_once number crc other unset a.accepted_proposal_num (taught out)
        (subst (λ l. Climb unset l a.accepted_proposal_num) (sym m.teaches) m.accepts) h k

  -- Whatever requests reach the accepters, and whatever number each finds at its start: if a quorum
  -- of them accepts a request under a proposal number, and a quorum accepts one under the same
  -- number, the two have the same checksum. There are accepters, and fewer than 2 ^ 16.
  pub agreement :
      (number crc other : ℕ) (accepters : List (ℕ × List Request))
      → 0 < length accepters
      → length accepters < 2 ^ 16
      → quorum (length accepters) ≤ count (votes number crc) accepters
      → quorum (length accepters) ≤ count (votes number other) accepters
      → crc ≡ other
  agreement number crc other accepters any few p q = elim (Bool-cases (crc == other)) [
    | inl e ↦ (==_iff crc other).0 e
    | inr e ↦ absurd (
        omega (
          arith,
          quorum-overlap (votes number crc) (votes number other) accepters any few p q,
          count-apart (votes number crc) (votes number other) accepters (λ x h. apart x h e),
        ))
  ]
    where
      apart :
          (x : ℕ × List Request)
          → votes number crc x ≡ true
          → (crc == other) ≡ false
          → votes number other x ≡ false
      apart x h e = elim (Bool-cases (votes number other x)) [
        | inl k ↦ ground (arith, e, votes_once number crc other x h k)
        | inr k ↦ k
      ]

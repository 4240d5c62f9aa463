-- ===== src/Paxos/Retry.antt =====
-- A proposer that is refused and an accepter that refused it.
use rangexx.Base.{ℕ, ◌+◌, ◌^◌, ◌≤◌, ◌<◌, ◌≡◌, refl, true, false, List, [], ◌∷◌, Str, arith}
use rangexx.Paxos.Message.{Request, AckType, Ack, same_type, answer}
use rangexx.Paxos.Accepter.{Accepter, promise}
use rangexx.Paxos.Proposer.{Proposer, highest_seen_proposal, next_number, numbered, prepare}
use rangexx.Paxos.Numbers.{Nacked, highest_seen_proposal-Nacked, next_number-highest}

-- The answer is one of them.
pub data Among (a : Ack) : List Ack → Type 0 where
  here : {acks : List Ack} → Among a (a ∷ acks)
  there : {b : Ack} {acks : List Ack} → Among a acks → Among a (b ∷ acks)

Among-Nacked :
    (n : ℕ) (a : Ack) (acks : List Ack)
    → Among a acks
    → Nacked n acks
    → same_type AckType.nack a.type ≡ true
    → a.proposal_num ≤ n
Among-Nacked n a [] q p h = elim q [ ]
Among-Nacked n a (b ∷ acks) here p h = p.0 h
Among-Nacked n a (b ∷ acks) (there q) p h = Among-Nacked n a acks q p.1 h

module _ (serialize : Request → Str) (node_id : Str) (m : ℕ) (req : Request) where
  -- If a `prepare` without a quorum had the refusal of an accepter among its answers, and no number
  -- reaches the end of the 64 bits, then this accepter, which has not moved since, gives its promise
  -- to the next `prepare`, whatever the answers to that are.
  pub retry_lem :
      (accepters again : List Str) (results later : List Ack) (p : Proposer) (a : Accepter)
      → p.proposal_number ≤ m
      → Nacked m results
      → m + 1 < 2 ^ 64
      → (prepare serialize node_id accepters results req p).0 ≡ false
      → Among
          (answer AckType.nack false a.promised_proposal_num
            (prepare serialize node_id accepters results req p).1.1)
          results
      → (promise
          (prepare serialize node_id again later req
            (prepare serialize node_id accepters results req p).1.0).1.1
          a).0.promised_proposal_num
        ≡ next_number p.proposal_number results
  unfolding prepare promise numbered
  retry_lem accepters again results later p a h k r f q =
      let above : a.promised_proposal_num < next_number p.proposal_number results =
        next_number-highest p.proposal_number m m results h (omega arith) k r
          a.promised_proposal_num
          (Among-Nacked (highest_seen_proposal p.proposal_number results)
            (answer AckType.nack false a.promised_proposal_num
              (prepare serialize node_id accepters results req p).1.1)
            results q (highest_seen_proposal-Nacked p.proposal_number results) refl) in
      rw f (ground (arith, above))

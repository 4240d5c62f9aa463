-- ===== src/Paxos/Proposer.antt =====
-- stored/paxos_proposer.cpp: how a proposer numbers its proposals. What the accepters answer to one
-- message (the result of `timed_send`) is a parameter of each step.
use rangexx.Base.{
  ℕ, suc, ◌+◌, ◌%◌, ◌^◌, max, Bool, true, false, List, [], ◌∷◌, Str, leb, ltb, if◌then◌else◌,
  length,
}
use rangexx.Crc.{crc32}
use rangexx.Paxos.Message.{RequestType, Request, AckType, Ack, same_type}
use rangexx.Paxos.Quorum.{quorum}

pub record Proposer : Type 0 where
  pub proposal_number : ℕ
  pub accepters : List Str

-- `promise_count` of `prepare` and `accepter_count` of `propose`
unfoldable pub ack_count : AckType → List Ack → ℕ
ack_count t [] = 0
ack_count t (a ∷ acks) =
    let rest = ack_count t acks in if same_type t a.type then suc rest else rest

-- `std::max` over the numbers in the NACKs, from this one on
unfoldable pub highest_seen_proposal : ℕ → List Ack → ℕ
highest_seen_proposal n [] = n
highest_seen_proposal n (a ∷ acks) =
    highest_seen_proposal (if same_type AckType.nack a.type then max a.proposal_num n else n) acks

-- `highest_seen_proposal + 1` on a uint64_t
unfoldable pub next_number : ℕ → List Ack → ℕ
unfolding highest_seen_proposal
next_number n acks = (highest_seen_proposal n acks + 1) % 2 ^ 64

-- The serialiser, and `cfg_->node_id()`.
module _ (serialize : Request → Str) (node_id : Str) where
  -- The message that `prepare` or `propose` sends; `now` is the time stamp that `propose` sets.
  unfoldable pub numbered : RequestType → ℕ → ℕ → Request → Request
  unfolding crc32
  numbered type number now req =
      let r = record req {
        type = type;
        proposal_num = number;
        proposer_id = crc32 node_id;
        timestamp = now;
        crc = 0;
      } in
      record r { crc = crc32 (serialize r) }

  -- `accepters` is what `get_accepters` finds.
  unfoldable pub prepare : List Str → List Ack → Request → Proposer → Bool × (Proposer × Request)
  unfolding next_number ack_count numbered quorum
  prepare accepters results req p =
      let ok = leb (quorum (length accepters)) (ack_count AckType.promise results) in
      (
        ok,
        (
          record {
            proposal_number =
                if ok then p.proposal_number else next_number p.proposal_number results;
            accepters = accepters;
          },
          numbered RequestType.prepare p.proposal_number req.timestamp req,
        ),
      )

  unfoldable pub propose : ℕ → List Ack → Request → Proposer → Bool × (Proposer × Request)
  unfolding next_number ack_count numbered quorum
  propose now results req p = (
    leb (quorum (length p.accepters)) (ack_count AckType.accepted results),
    (
      record p { proposal_number = next_number p.proposal_number results },
      numbered RequestType.propose p.proposal_number now req,
    ),
  )

  -- The loops of `event_task` for one request. Each message takes one element of the list, with what
  -- `get_accepters`, the clock and the network give for it; where the list ends the daemon shuts
  -- down. The first argument is whether the message is a PREPARE, the second is `bow_out`. The result
  -- has the messages in the order in which they are sent.
  unfoldable pub attempt :
      Bool → ℕ → List (List Str × (ℕ × List Ack)) → Request → Proposer → Proposer × List Request
  unfolding prepare propose
  attempt preparing bow_out [] req p = (p, [])
  attempt true bow_out ((accepters, (now, results)) ∷ world) req p =
      let (ok, (p', sent)) = prepare accepters results req p in
      let again = attempt true (bow_out + 1) world req p' in
      let onward = attempt false (if ok then bow_out else bow_out + 1) world req p' in
      let rest = if ok then onward else if ltb bow_out 42 then again else onward in
      (rest.0, sent ∷ rest.1)
  attempt false bow_out ((accepters, (now, results)) ∷ world) req p =
      let (ok, (p', sent)) = propose now results req p in
      let again = attempt true bow_out world req p' in
      let rest = if ok then (p', []) else if ltb bow_out 42 then again else (p', []) in
      (rest.0, sent ∷ rest.1)

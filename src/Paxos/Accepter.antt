-- ===== src/Paxos/Accepter.antt =====
-- stored/paxos_accepter.cpp: an accepter takes requests from its queue one by one and sends messages.
use rangexx.Base.{ℕ, true, false, not, ◌||◌, List, [], ◌∷◌, ◌++◌, Str, leb, ◌==◌, if◌then◌else◌}
use rangexx.Crc.{crc32}
use rangexx.Paxos.Message.{RequestType, Request, AckType, Ack, answer}

pub record Accepter : Type 0 where
  pub promised_proposal_num : ℕ
  pub accepted_proposal_num : ℕ

-- The constructor leaves the number of the accepted proposal as it finds it.
abbrev pub make_accepter : ℕ → Accepter
make_accepter unset = record { promised_proposal_num = 0; accepted_proposal_num = unset }

-- A message to the sender of a request, or one to all learners.
pub data Sent : Type 0 where
  to_sender : ℕ → ℕ → Ack → Sent
  to_learners : Request → Sent

abbrev pub send_ack : Request → Ack → Sent
send_ack req a = to_sender req.sender_addr req.sender_port a

unfoldable pub nack : Request → Accepter → Accepter × List Sent
nack req a = (a, send_ack req (answer AckType.nack false a.promised_proposal_num req) ∷ [])

unfoldable pub promise : Request → Accepter → Accepter × List Sent
unfolding nack
promise req a = if leb req.proposal_num a.promised_proposal_num then nack req a else (
  record a { promised_proposal_num = req.proposal_num },
  send_ack req (answer AckType.promise true req.proposal_num req) ∷ [],
)

-- `serialize` is `SerializeAsString` of a request, written by protoc.
module _ (serialize : Request → Str) where
  -- The request as the learners get it.
  unfoldable pub learn_request : Request → Request
  unfolding crc32
  learn_request req =
      let r = record req { type = RequestType.learn; crc = 0 } in
      record r { crc = crc32 (serialize r) }

  unfoldable pub accept : Request → Accepter → Accepter × List Sent
  unfolding nack learn_request
  accept req a =
      if not (req.proposal_num == a.promised_proposal_num)
        || leb req.proposal_num a.accepted_proposal_num
      then nack req a
      else (
        record a { accepted_proposal_num = a.promised_proposal_num },
        send_ack req (answer AckType.accepted true a.promised_proposal_num req)
            ∷ to_learners (learn_request req)
            ∷ [],
      )

  -- One round of the loop of `event_task`.
  unfoldable pub handle : RequestType → Request → Accepter → Accepter × List Sent
  unfolding promise accept
  handle RequestType.prepare req a = promise req a
  handle RequestType.propose req a = accept req a
  handle _ req a = (a, [])

  -- The requests of the queue, in their order.
  unfoldable pub event_task : List Request → Accepter → Accepter × List Sent
  unfolding handle
  event_task [] a = (a, [])
  event_task (req ∷ reqs) a =
      let (a', sent) = handle req.type req a in
      let (a'', later) = event_task reqs a' in (a'', sent ++ later)

-- ===== src/Paxos/Learner.antt =====
-- stored/paxos_learner.cpp: the table of the requests that a learner has heard of.
use rangexx.Base.{ℕ, suc, ◌-◌, true, ◌&&◌, List, [], ◌∷◌, ◌++◌, leb, ltb, ◌==◌, if◌then◌else◌}
use rangexx.Paxos.Message.{Request, AckType, answer}
use rangexx.Paxos.Accepter.{Sent, send_ack}

-- Times are in milliseconds.
pub record PendingLearnedRequest : Type 0 where
  pub last_seen : ℕ
  pub req : Request
  pub seen_count : ℕ
  pub needed_count : ℕ

-- `pending_learned_requests`, a `std::map`: the entries by rising proposal numbers.
abbrev pub Table : Type 0
Table = List (ℕ × PendingLearnedRequest)

-- The last test of the loop in `event_task`.
unfoldable pub see : ℕ → Request → PendingLearnedRequest → PendingLearnedRequest
see now r p =
    if r.crc == p.req.crc then record p { last_seen = now; seen_count = suc p.seen_count } else p

-- A new entry. The source does not set `seen_count`; `unset` is what stands there.
abbrev pub make_pending : ℕ → ℕ → Request → PendingLearnedRequest
make_pending unset quorum r = record {
  last_seen = 0;
  req = r;
  seen_count = unset;
  needed_count = quorum;
}

-- One round of the loop in `event_task`: the entry with this number, found or made, is seen.
unfoldable pub receive : ℕ → ℕ → ℕ → Request → Table → Table
unfolding see
receive unset quorum now r [] = (r.proposal_num, see now r (make_pending unset quorum r)) ∷ []
receive unset quorum now r ((n, p) ∷ t) =
    let rest = receive unset quorum now r t in
    if r.proposal_num == n
    then (n, see now r p) ∷ t
    else if ltb r.proposal_num n
    then (r.proposal_num, see now r (make_pending unset quorum r)) ∷ (n, p) ∷ t
    else (n, p) ∷ rest

-- What `ack` sends.
abbrev pub acknowledge : Request → Sent
acknowledge r = send_ack r (answer AckType.ack true r.proposal_num r)

unfoldable pub receive_all : ℕ → ℕ → ℕ → List Request → Table → Table × List Sent
unfolding receive
receive_all unset quorum now [] t = (t, [])
receive_all unset quorum now (r ∷ rs) t =
    let (t', sent) = receive_all unset quorum now rs (receive unset quorum now r t) in
    (t', acknowledge r ∷ sent)

unfoldable pub cleanup_dead_requests : ℕ → ℕ → Table → Table
cleanup_dead_requests timeout now [] = []
cleanup_dead_requests timeout now ((n, p) ∷ t) =
    let rest = cleanup_dead_requests timeout now t in
    if ltb p.seen_count p.needed_count && ltb timeout (now - p.last_seen)
    then rest
    else (n, p) ∷ rest

-- Only the first entry is looked at. The second part is what goes to `learn`.
unfoldable pub learn_completed_requests : Table → Table × List Request
learn_completed_requests [] = ([], [])
learn_completed_requests ((n, p) ∷ t) =
    if leb p.needed_count p.seen_count then (t, p.req ∷ []) else ((n, p) ∷ t, [])

-- `event_task` with the requests that are in the queue.
unfoldable pub learner_task : ℕ → ℕ → ℕ → ℕ → List Request → Table → Table × List Request
unfolding receive_all cleanup_dead_requests learn_completed_requests
learner_task unset quorum timeout now rs t =
    learn_completed_requests
      (cleanup_dead_requests timeout now (receive_all unset quorum now rs t).0)

-- One task after another, at the given times.
unfoldable pub learner_run : ℕ → ℕ → ℕ → List (ℕ × List Request) → Table → Table × List Request
unfolding learner_task
learner_run unset quorum timeout [] t = (t, [])
learner_run unset quorum timeout ((now, rs) ∷ tasks) t =
    let (t', learned) = learner_task unset quorum timeout now rs t in
    let (t'', later) = learner_run unset quorum timeout tasks t' in (t'', learned ++ later)

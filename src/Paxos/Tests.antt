-- ===== src/Paxos/Tests.antt =====
-- Runs of accepters and proposers, and the theorems on them there.
use rangexx.Base.{◌≤◌, ℕ, ◌≡◌, refl, true, false, List, [], ◌∷◌, Str, codes, arith}
use rangexx.Paxos.Message.{RequestType, Request, AckType, Ack, answer}
use rangexx.Paxos.Accepter.{
  Accepter, make_accepter, promise, nack, accept, handle, event_task, learn_request,
}
use rangexx.Crc.Table.{crc_table}
use rangexx.Crc.{crc32, crc_loop, crc_step}
use rangexx.Paxos.Votes.{Served, event_task_lem}
use rangexx.Paxos.Quorum.{quorum, count}
use rangexx.Paxos.Agreement.{voted, votes, agreement}
use rangexx.Paxos.Proposer.{
  Proposer, prepare, propose, numbered, attempt, next_number, ack_count, highest_seen_proposal,
}
use rangexx.Paxos.Numbers.{attempt_lem, Rise, proposed, AllNacked}
use rangexx.Paxos.Learner.{
  learner_run, learner_task, receive_all, receive, see, cleanup_dead_requests,
  learn_completed_requests,
}
use rangexx.Paxos.Learned.{Backed, all_received, learner_run_lem}
use rangexx.Paxos.Retry.{here, retry_lem}

abbrev asked : RequestType → ℕ → Request
asked type number = record {
  crc = 0;
  client_id = codes "n1|c";
  request_id = 7;
  method = codes "create_env";
  args = codes "prod" ∷ [];
  timestamp = 0;
  type = type;
  proposal_num = number;
  proposer_id = 1;
  sender_addr = 10;
  sender_port = 5444;
  version = 0;
  sequence_num = 0;
}

-- It tells requests apart by their number and their method.
abbrev short : Request → Str
short req = req.proposal_num ∷ req.method

-- An accepter promises 4 and accepts it; it refuses 3, and refuses 4 the second time.
accepter_run :
    (event_task short
      (asked RequestType.prepare 4
        ∷ asked RequestType.prepare 3
        ∷ asked RequestType.propose 4
        ∷ asked RequestType.propose 4
        ∷ [])
      (make_accepter 0)).0
    ≡ record { promised_proposal_num = 4; accepted_proposal_num = 4 }
unfolding event_task handle promise accept nack learn_request
accepter_run = refl

abbrev good_run : ℕ × List Request
good_run = (0, asked RequestType.prepare 4 ∷ asked RequestType.propose 4 ∷ [])

abbrev vote : ℕ
vote = (learn_request short (asked RequestType.propose 4)).crc

abbrev three : List (ℕ × List Request)
three = good_run ∷ (0, []) ∷ good_run ∷ []

majority : quorum 3 ≤ count (votes short 4 vote) three
unfolding quorum count voted event_task handle promise accept learn_request crc32 crc_loop crc_step
    crc_table
majority = omega arith

agreement_example : vote ≡ vote
agreement_example = agreement short 4 vote vote three (omega arith) (omega arith) majority majority

abbrev beginner : Proposer
beginner = record { proposal_number = 1; accepters = [] }

abbrev daemons : List Str
daemons = codes "n1" ∷ codes "n2" ∷ codes "n3" ∷ []

abbrev ahead : Accepter
ahead = record { promised_proposal_num = 5; accepted_proposal_num = 2 }

-- Two promise, one refuses at 5; then none accepts, one refusing at 6; at 7 all is well.
abbrev world : List (List Str × (ℕ × List Ack))
world =
    (daemons, (0, refused 5 ∷ refused 5 ∷ []))
    ∷ (daemons, (0, granted ∷ granted ∷ []))
    ∷ (daemons, (0, refused 6 ∷ []))
    ∷ (daemons, (0, granted ∷ granted ∷ []))
    ∷ (daemons, (0, agreed ∷ agreed ∷ []))
    ∷ []
  where
    refused : ℕ → Ack
    refused n = answer AckType.nack false n (asked RequestType.prepare 0)

    granted : Ack
    granted = answer AckType.promise true 0 (asked RequestType.prepare 0)

    agreed : Ack
    agreed = answer AckType.accepted true 0 (asked RequestType.propose 0)

attempt_run :
    proposed (attempt short (codes "n1") true 1 world (asked RequestType.request 0) beginner).1
    ≡ 6 ∷ 7 ∷ []
unfolding attempt prepare propose numbered next_number ack_count highest_seen_proposal quorum
attempt_run = refl

-- With `bow_out` at its limit, a `prepare` that finds no quorum is followed by a PROPOSE all the same.
bowed_out_run :
    proposed
      (attempt short
        (codes "n1")
        true
        42
        ((daemons, (0, [])) ∷ (daemons, (0, [])) ∷ [])
        (asked RequestType.request 0)
        beginner).1
    ≡ 2 ∷ []
unfolding attempt prepare propose numbered next_number ack_count highest_seen_proposal quorum
bowed_out_run = refl

world_nacked : AllNacked 6 world
world_nacked = (
  (λ h. omega arith, (λ h. omega arith, tt)),
  (
    (λ h. omega arith, (λ h. omega arith, tt)),
    (
      (λ h. omega arith, tt),
      (
        (λ h. omega arith, (λ h. omega arith, tt)),
        ((λ h. omega arith, (λ h. omega arith, tt)), tt),
      ),
    ),
  ),
)

attempt_lem_example :
    Rise 1
      (proposed (attempt short (codes "n1") true 1 world (asked RequestType.request 0) beginner).1)
      (attempt short
        (codes "n1")
        true
        1
        world
        (asked RequestType.request 0)
        beginner).0.proposal_number
attempt_lem_example =
    attempt_lem short (codes "n1") 6 (asked RequestType.request 0) true 1 6 world beginner
      (omega arith) (omega arith) world_nacked (omega arith)

event_task_lem_example :
    Served short good_run.1
      (make_accepter 0)
      (event_task short good_run.1 (make_accepter 0)).0
      (event_task short good_run.1 (make_accepter 0)).1
event_task_lem_example = event_task_lem short good_run.1 (make_accepter 0)

abbrev refusals : List Ack
refusals =
    answer AckType.nack false 5
      (prepare short (codes "n1") daemons [] (asked RequestType.request 0) beginner).1.1
    ∷ []

retry_lem_example :
    (promise
      (prepare short
        (codes "n1")
        daemons
        []
        (asked RequestType.request 0)
        (prepare short
          (codes "n1")
          daemons
          refusals
          (asked RequestType.request 0)
          beginner).1.0).1.1
      ahead).0.promised_proposal_num
    ≡ next_number 1 refusals
retry_lem_example =
    retry_lem short (codes "n1") 5 (asked RequestType.request 0) daemons daemons refusals []
      beginner ahead (omega arith) (unfold prepare numbered in (λ h. omega arith, tt)) (omega arith)
      (unfold prepare ack_count quorum in refl) (unfold prepare in here)

abbrev tasks : List (ℕ × List Request)
tasks =
    (100, asked RequestType.learn 4 ∷ [])
    ∷ (200, asked RequestType.learn 4 ∷ asked RequestType.learn 5 ∷ [])
    ∷ (9000, [])
    ∷ []

-- The second report of request 4 makes it learned; request 5 is dropped in the end.
learner_table_run : learner_run 0 2 1000 tasks [] ≡ ([], asked RequestType.learn 4 ∷ [])
unfolding learner_run learner_task receive_all receive see cleanup_dead_requests
    learn_completed_requests
learner_table_run = refl

learner_run_lem_example : Backed 1 2 (all_received [] tasks) (learner_run 1 2 1000 tasks []).1
learner_run_lem_example = learner_run_lem 1 2 1000 tasks

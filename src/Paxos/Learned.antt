-- ===== src/Paxos/Learned.antt =====
-- What a learner learns.
use rangexx.Base.{
  ℕ, suc, ◌+◌, ◌-◌, ◌≤◌, ◌≡◌, refl, inl, inr, ◌&&◌, List, [], ◌∷◌, All, All-append, leb, ltb, ◌==◌,
  if◌then◌else◌, choose, arith, Bool-cases,
}
use rangexx.Paxos.Message.{Request}
use rangexx.Paxos.Learner.{
  PendingLearnedRequest, Table, see, make_pending, receive, receive_all, cleanup_dead_requests,
  learn_completed_requests, learner_task, learner_run,
}

-- How many of the requests have the proposal number and the checksum of this one.
unfoldable pub matches : Request → List Request → ℕ
matches r [] = 0
matches r (q ∷ log) =
    let rest = matches r log in
    if (q.proposal_num == r.proposal_num) && (q.crc == r.crc) then suc rest else rest

-- An entry has not counted more than what came in on top of `unset`, where it began, and wants a
-- quorum.
record Counted (unset quorum : ℕ) (log : List Request) (x : ℕ × PendingLearnedRequest)
    : Type 0 where
  numbered : x.1.req.proposal_num ≡ x.0
  counted : x.1.seen_count ≤ unset + matches x.1.req log
  needs : x.1.needed_count ≡ quorum

abbrev AllCounted : ℕ → ℕ → List Request → Table → Type 0
AllCounted unset quorum log t = All (Counted unset quorum log) t

matches-more : (r q : Request) (log : List Request) → matches r log ≤ matches r (q ∷ log)
unfolding matches
matches-more r q log = ground arith

Counted-more :
    (unset quorum : ℕ) (q : Request) (log : List Request) (x : ℕ × PendingLearnedRequest)
    → Counted unset quorum log x
    → Counted unset quorum (q ∷ log) x
Counted-more unset quorum q log x c = record {
  numbered = c.numbered;
  counted = omega (arith, c.counted, matches-more x.1.req q log);
  needs = c.needs;
}

AllCounted-more :
    (unset quorum : ℕ) (q : Request) (log : List Request) (t : Table)
    → AllCounted unset quorum log t
    → AllCounted unset quorum (q ∷ log) t
AllCounted-more unset quorum q log [] a = tt
AllCounted-more unset quorum q log (x ∷ t) a =
    (Counted-more unset quorum q log x a.0, AllCounted-more unset quorum q log t a.1)

Counted-see :
    (unset quorum now : ℕ) (r : Request) (log : List Request) (n : ℕ) (p : PendingLearnedRequest)
    → r.proposal_num ≡ n
    → Counted unset quorum log (n, p)
    → Counted unset quorum (r ∷ log) (n, see now r p)
unfolding see
Counted-see unset quorum now r log n p e c = elim (Bool-cases (r.crc == p.req.crc)) [
  | inl h ↦ rw h (record {
    numbered = c.numbered;
    counted = unfold matches in ground (arith, h, e, c.numbered, c.counted);
    needs = c.needs;
  })
  | inr h ↦ rw h (Counted-more unset quorum r log (n, p) c)
]

Counted-make_pending :
    (unset quorum now : ℕ) (r : Request) (log : List Request)
    → Counted unset quorum (r ∷ log) (r.proposal_num, see now r (make_pending unset quorum r))
Counted-make_pending unset quorum now r log =
    Counted-see unset quorum now r log r.proposal_num (make_pending unset quorum r) refl
      (record { numbered = refl; counted = omega arith; needs = refl })

receive-AllCounted :
    (unset quorum now : ℕ) (r : Request) (log : List Request) (t : Table)
    → AllCounted unset quorum log t
    → AllCounted unset quorum (r ∷ log) (receive unset quorum now r t)
unfolding receive
receive-AllCounted unset quorum now r log [] a = (Counted-make_pending unset quorum now r log, tt)
receive-AllCounted unset quorum now r log ((n, p) ∷ t) a = elim (Bool-cases (r.proposal_num == n)) [
  | inl h ↦ rw h (
    Counted-see unset quorum now r log n p (ground (arith, h)) a.0,
    AllCounted-more unset quorum r log t a.1,
  )
  | inr h ↦ elim (Bool-cases (ltb r.proposal_num n)) [
    | inl k ↦
        rw (h, k)
          (
            Counted-make_pending unset quorum now r log,
            AllCounted-more unset quorum r log ((n, p) ∷ t) a,
          )
    | inr k ↦
        rw (h, k)
          (
            Counted-more unset quorum r log (n, p) a.0,
            receive-AllCounted unset quorum now r log t a.1,
          )
  ]
]

-- The requests that came in, the latest first.
abbrev pub received : List Request → List Request → List Request
received log [] = log
received log (r ∷ rs) = received (r ∷ log) rs

receive_all-AllCounted :
    (unset quorum now : ℕ) (rs log : List Request) (t : Table)
    → AllCounted unset quorum log t
    → AllCounted unset quorum (received log rs) (receive_all unset quorum now rs t).0
unfolding receive_all
receive_all-AllCounted unset quorum now [] log t a = a
receive_all-AllCounted unset quorum now (r ∷ rs) log t a =
    receive_all-AllCounted unset quorum now rs (r ∷ log) (receive unset quorum now r t)
      (receive-AllCounted unset quorum now r log t a)

cleanup-AllCounted :
    (unset quorum timeout now : ℕ) (log : List Request) (t : Table)
    → AllCounted unset quorum log t
    → AllCounted unset quorum log (cleanup_dead_requests timeout now t)
unfolding cleanup_dead_requests
cleanup-AllCounted unset quorum timeout now log [] a = tt
cleanup-AllCounted unset quorum timeout now log ((n, p) ∷ t) a =
    let kept = cleanup-AllCounted unset quorum timeout now log t a.1 in
    let rest = cleanup_dead_requests timeout now t in
    choose (AllCounted unset quorum log)
      (ltb p.seen_count p.needed_count && ltb timeout (now - p.last_seen)) rest ((n, p) ∷ rest) kept
      (a.0, kept)

abbrev pub Backed : ℕ → ℕ → List Request → List Request → Type 0
Backed unset quorum log learned = All (λ r. quorum ≤ unset + matches r log) learned

learn-AllCounted :
    (unset quorum : ℕ) (log : List Request) (t : Table)
    → AllCounted unset quorum log t
    → AllCounted unset quorum log (learn_completed_requests t).0
      × Backed unset quorum log (learn_completed_requests t).1
unfolding learn_completed_requests
learn-AllCounted unset quorum log [] a = (tt, tt)
learn-AllCounted unset quorum log ((n, p) ∷ t) a =
    elim (Bool-cases (leb p.needed_count p.seen_count)) [
      | inl h ↦ rw h (a.1, (ground (arith, h, a.0.counted, a.0.needs), tt))
      | inr h ↦ rw h (a, tt)
    ]

-- All requests that came in during the tasks, the latest first.
abbrev pub all_received : List Request → List (ℕ × List Request) → List Request
all_received log [] = log
all_received log ((now, rs) ∷ tasks) = all_received (received log rs) tasks

matches-received :
    (r : Request) (rs log : List Request) → matches r log ≤ matches r (received log rs)
matches-received r [] log = omega arith
matches-received r (q ∷ rs) log =
    omega (arith, matches-more r q log, matches-received r rs (q ∷ log))

matches-all_received :
    (r : Request) (tasks : List (ℕ × List Request)) (log : List Request)
    → matches r log ≤ matches r (all_received log tasks)
matches-all_received r [] log = omega arith
matches-all_received r ((now, rs) ∷ tasks) log =
    omega (arith, matches-received r rs log, matches-all_received r tasks (received log rs))

Backed-all_received :
    (unset quorum : ℕ) (tasks : List (ℕ × List Request)) (log learned : List Request)
    → Backed unset quorum log learned
    → Backed unset quorum (all_received log tasks) learned
Backed-all_received unset quorum tasks log [] b = tt
Backed-all_received unset quorum tasks log (r ∷ rs) b = (
  omega (arith, b.0, matches-all_received r tasks log),
  Backed-all_received unset quorum tasks log rs b.1,
)

Backed-learner_run :
    (unset quorum timeout : ℕ) (tasks : List (ℕ × List Request)) (log : List Request) (t : Table)
    → AllCounted unset quorum log t
    → Backed unset quorum (all_received log tasks) (learner_run unset quorum timeout tasks t).1
unfolding learner_run learner_task
Backed-learner_run unset quorum timeout [] log t a = tt
Backed-learner_run unset quorum timeout ((now, rs) ∷ tasks) log t a =
    let cleaned = cleanup_dead_requests timeout now (receive_all unset quorum now rs t).0 in
    let l = learn-AllCounted unset quorum (received log rs) cleaned (
      cleanup-AllCounted unset quorum timeout now (received log rs)
        (receive_all unset quorum now rs t).0
        (receive_all-AllCounted unset quorum now rs log t a)) in
    All-append (λ r. quorum ≤ unset + matches r (all_received (received log rs) tasks))
      (learn_completed_requests cleaned).1
      (learner_run unset quorum timeout tasks (learn_completed_requests cleaned).0).1
      (Backed-all_received unset quorum tasks (received log rs) (learn_completed_requests cleaned).1
        l.1)
      (Backed-learner_run unset quorum timeout tasks (received log rs)
        (learn_completed_requests cleaned).0 l.0)

-- The source leaves the count of a new entry unset. If all new entries find the same number there,
-- `unset`, and the quorum stays the same, then whatever a learner receives, and whenever, each request
-- that it learns came in, with its proposal number and checksum, so often that this and `unset` are
-- at least the quorum: a quorum of times where `unset` is 0, but perhaps only once where it is not.
pub learner_run_lem :
    (unset quorum timeout : ℕ) (tasks : List (ℕ × List Request))
    → Backed unset quorum (all_received [] tasks) (learner_run unset quorum timeout tasks []).1
learner_run_lem unset quorum timeout tasks = Backed-learner_run unset quorum timeout tasks [] [] tt

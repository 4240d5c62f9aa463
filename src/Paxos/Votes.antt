-- ===== src/Paxos/Votes.antt =====
-- What an accepter promises and accepts over any sequence of requests, and what follows for a set of
-- accepters on which any proposers work.
use rangexx.Base.{
  ℕ, ◌≤◌, ◌<◌, ◌≡◌, inl, inr, refl, ◌∙◌, ap, not, ◌||◌, List, [], ◌∷◌, ◌++◌, Str, leb, ◌==◌,
  if◌then◌else◌, arith, Bool-cases,
}
use rangexx.Paxos.Message.{RequestType, Request, AckType, same_type}
use rangexx.Paxos.Taught.{taught, taught-append, Walk, event_task-Walk}
use rangexx.Paxos.Accepter.{
  Accepter, Sent, to_sender, to_learners, nack, promise, learn_request, accept, handle, event_task,
}

-- The numbers in the answers of this type.
abbrev pub numbers : AckType → List Sent → List ℕ
numbers t [] = []
numbers t (to_sender addr port a ∷ out) =
    let rest = numbers t out in if same_type t a.type then a.proposal_num ∷ rest else rest
numbers t (to_learners req ∷ out) = numbers t out

-- The numbers rise strictly, from above `b`, and the last of them is `c` (there is none if it is `b`).
pub data Climb : ℕ → List ℕ → ℕ → Type 0 where
  stay : {b : ℕ} → Climb b [] b
  climb : {b x c : ℕ} {xs : List ℕ} → b < x → Climb x xs c → Climb b (x ∷ xs) c

Climb-append : (b c e : ℕ) (xs ys : List ℕ) → Climb b xs c → Climb c ys e → Climb b (xs ++ ys) e
Climb-append b c e xs ys stay q = q
Climb-append b c e xs ys (climb h p) q = climb h (Climb-append _ c e _ ys p q)

numbers-append :
    (t : AckType) (xs ys : List Sent) → numbers t (xs ++ ys) ≡ numbers t xs ++ numbers t ys
numbers-append t [] ys = refl
numbers-append t (to_sender addr port a ∷ xs) ys = ground (arith, numbers-append t xs ys)
numbers-append t (to_learners req ∷ xs) ys = numbers-append t xs ys

abbrev pub number_list : List Request → List ℕ
number_list [] = []
number_list (req ∷ reqs) = req.proposal_num ∷ number_list reqs

number_list-append :
    (xs ys : List Request) → number_list (xs ++ ys) ≡ number_list xs ++ number_list ys
number_list-append [] ys = refl
number_list-append (req ∷ xs) ys = ap (λ l. req.proposal_num ∷ l) (number_list-append xs ys)

-- How an accepter gets from one state to another, and what it says meanwhile.
pub record Moved (a a' : Accepter) (out : List Sent) : Type 0 where
  pub promises :
      Climb a.promised_proposal_num (numbers AckType.promise out) a'.promised_proposal_num
  pub accepts :
      Climb a.accepted_proposal_num (numbers AckType.accepted out) a'.accepted_proposal_num
  pub teaches : number_list (taught out) ≡ numbers AckType.accepted out
  pub latest :
      a.accepted_proposal_num ≤ a.promised_proposal_num
      → a'.accepted_proposal_num ≤ a'.promised_proposal_num

still : (a : Accepter) → Moved a a []
still a = record { promises = stay; accepts = stay; teaches = refl; latest = λ h. h }

nack_lem : (req : Request) (a : Accepter) → Moved a (nack req a).0 (nack req a).1
unfolding nack
nack_lem req a = record { promises = stay; accepts = stay; teaches = refl; latest = λ h. h }

promise_lem : (req : Request) (a : Accepter) → Moved a (promise req a).0 (promise req a).1
unfolding promise
promise_lem req a = elim (Bool-cases (leb req.proposal_num a.promised_proposal_num)) [
  | inl h ↦ rw h (nack_lem req a)
  | inr h ↦ rw h (record {
    promises = climb (ground (arith, h)) stay;
    accepts = stay;
    teaches = refl;
    latest = λ e. ground (arith, h, e);
  })
]

module _ (serialize : Request → Str) where
  accept_lem :
      (req : Request) (a : Accepter) → Moved a (accept serialize req a).0 (accept serialize req a).1
  unfolding accept
  accept_lem req a =
      elim (Bool-cases (
        not (req.proposal_num == a.promised_proposal_num)
        || leb req.proposal_num a.accepted_proposal_num)) [
          | inl h ↦ rw h (nack_lem req a)
          | inr h ↦ rw h (record {
            promises = stay;
            accepts = climb (ground (arith, h)) stay;
            teaches = unfold learn_request in ground (arith, h);
            latest = λ e. omega arith;
          })
        ]

  handle_lem :
      (t : RequestType) (req : Request) (a : Accepter)
      → Moved a (handle serialize t req a).0 (handle serialize t req a).1
  unfolding handle
  handle_lem RequestType.prepare req a = promise_lem req a
  handle_lem RequestType.propose req a = accept_lem req a
  handle_lem RequestType.request req a = still a
  handle_lem RequestType.learn req a = still a
  handle_lem RequestType.replay req a = still a
  handle_lem RequestType.failover req a = still a
  handle_lem RequestType.heartbeat req a = still a

  Moved-append :
      (a b c : Accepter) (xs ys : List Sent) → Moved a b xs → Moved b c ys → Moved a c (xs ++ ys)
  Moved-append a b c xs ys p q = record {
    promises = rw (numbers-append AckType.promise xs ys) (
        Climb-append a.promised_proposal_num b.promised_proposal_num c.promised_proposal_num
          (numbers AckType.promise xs) (numbers AckType.promise ys) p.promises q.promises);
    accepts = rw (numbers-append AckType.accepted xs ys) (
        Climb-append a.accepted_proposal_num b.accepted_proposal_num c.accepted_proposal_num
          (numbers AckType.accepted xs) (numbers AckType.accepted ys) p.accepts q.accepts);
    teaches =
        ap number_list (taught-append xs ys)
        ∙ number_list-append (taught xs) (taught ys)
        ∙ rw (p.teaches, q.teaches, numbers-append AckType.accepted xs ys);
    latest = λ h. q.latest (p.latest h);
  }

  handled :
      (reqs : List Request) (a : Accepter)
      → Moved a (event_task serialize reqs a).0 (event_task serialize reqs a).1
  unfolding event_task
  handled [] a = still a
  handled (req ∷ reqs) a =
      let (a', sent) = handle serialize req.type req a in
      let (a'', later) = event_task serialize reqs a' in
      Moved-append a a' a'' sent later (handle_lem req.type req a) (handled reqs a')

  -- How an accepter deals with its queue.
  pub record Served (reqs : List Request) (a a' : Accepter) (out : List Sent) : Type 0 where
    pub moved : Moved a a' out
    pub walk : Walk serialize a.promised_proposal_num a.accepted_proposal_num reqs (taught out)

  -- Over any sequence of requests, an accepter promises ever larger proposal numbers, the last of
  -- which it holds as promised, and accepts ever larger ones, the last of which it holds as
  -- accepted; and if the accepted number is not above the promised one at the start, it is not at
  -- the end. It accepts exactly the PROPOSE requests whose number is the promised one and above
  -- the accepted one. The learners get exactly the requests that it accepts, in that order: of the
  -- type LEARN, with the checksum that they have then, taken with a checksum of 0, and in all
  -- other fields as they were.
  pub event_task_lem :
      (reqs : List Request) (a : Accepter)
      → Served reqs a (event_task serialize reqs a).0 (event_task serialize reqs a).1
  event_task_lem reqs a = record { moved = handled reqs a; walk = event_task-Walk serialize reqs a }

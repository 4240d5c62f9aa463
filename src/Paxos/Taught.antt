-- ===== src/Paxos/Taught.antt =====
-- stored/paxos_accepter.cpp: which requests an accepter sends to the learners, and what of them.
use rangexx.Base.{
  ℕ, ◌≤◌, ◌<◌, ◌≡◌, ◌≢◌, ◌⊎◌, refl, ap, inl, inr, true, not, ◌||◌, List, [], ◌∷◌, ◌++◌, Str, leb,
  ◌==◌, arith, Bool-cases, sym,
}
use mathlib.Core.Path.{subst}
use rangexx.Crc.{crc32}
use rangexx.Paxos.Message.{RequestType, Request}
use rangexx.Paxos.Accepter.{
  Accepter, Sent, to_sender, to_learners, nack, promise, learn_request, accept, handle, event_task,
}

-- The requests that the learners get.
abbrev pub taught : List Sent → List Request
taught [] = []
taught (to_sender addr port a ∷ out) = taught out
taught (to_learners req ∷ out) = req ∷ taught out

pub taught-append : (xs ys : List Sent) → taught (xs ++ ys) ≡ taught xs ++ taught ys
taught-append [] ys = refl
taught-append (to_sender addr port a ∷ xs) ys = taught-append xs ys
taught-append (to_learners req ∷ xs) ys = ap (λ l. req ∷ l) (taught-append xs ys)

-- `got` says to a learner what `req` asked for, under the same number. Its checksum is that of itself
-- with checksum 0.
pub record Report (serialize : Request → Str) (req got : Request) : Type 0 where
  pub type : got.type ≡ RequestType.learn
  pub client_id : got.client_id ≡ req.client_id
  pub request_id : got.request_id ≡ req.request_id
  pub method : got.method ≡ req.method
  pub args : got.args ≡ req.args
  pub timestamp : got.timestamp ≡ req.timestamp
  pub proposal_num : got.proposal_num ≡ req.proposal_num
  pub proposer_id : got.proposer_id ≡ req.proposer_id
  pub sender_addr : got.sender_addr ≡ req.sender_addr
  pub sender_port : got.sender_port ≡ req.sender_port
  pub version : got.version ≡ req.version
  pub sequence_num : got.sequence_num ≡ req.sequence_num
  pub crc : got.crc ≡ crc32 (serialize (record got { crc = 0 }))

-- The requests of a queue one by one, with the promised and the accepted number before each, and what
-- the learners get. A PREPARE is promised if its number is above the promised one; a PROPOSE is
-- accepted if its number is the promised one and above the accepted one; no other request changes
-- anything.
pub data Walk (serialize : Request → Str) : ℕ → ℕ → List Request → List Request → Type 0 where
  done : {p a : ℕ} → Walk serialize p a [] []
  promised :
      {p a : ℕ} {req : Request} {reqs out : List Request}
      → req.type ≡ RequestType.prepare
      → p < req.proposal_num
      → Walk serialize req.proposal_num a reqs out
      → Walk serialize p a (req ∷ reqs) out
  accepted :
      {p a : ℕ} {req got : Request} {reqs out : List Request}
      → req.type ≡ RequestType.propose
      → req.proposal_num ≡ p
      → a < req.proposal_num
      → Report serialize req got
      → Walk serialize p req.proposal_num reqs out
      → Walk serialize p a (req ∷ reqs) (got ∷ out)
  passed :
      {p a : ℕ} {req : Request} {reqs out : List Request}
      → (req.type ≡ RequestType.prepare → req.proposal_num ≤ p)
      → (req.type ≡ RequestType.propose → (req.proposal_num ≢ p) ⊎ (req.proposal_num ≤ a))
      → Walk serialize p a reqs out
      → Walk serialize p a (req ∷ reqs) out

module _ (serialize : Request → Str) where
  learn_request-Report : (req : Request) → Report serialize req (learn_request serialize req)
  unfolding learn_request
  learn_request-Report req = record {
    type = refl;
    client_id = refl;
    request_id = refl;
    method = refl;
    args = refl;
    timestamp = refl;
    proposal_num = refl;
    proposer_id = refl;
    sender_addr = refl;
    sender_port = refl;
    version = refl;
    sequence_num = refl;
    crc = refl;
  }

  abbrev WalkOf : List Request → List Request → Accepter → Type 0
  WalkOf reqs out a = Walk serialize a.promised_proposal_num a.accepted_proposal_num reqs out

  module _ (req : Request) (reqs later : List Request) (a : Accepter) where
    promise-Walk :
        req.type ≡ RequestType.prepare
        → WalkOf reqs later (promise req a).0
        → WalkOf (req ∷ reqs) (taught (promise req a).1 ++ later) a
    unfolding promise nack
    promise-Walk t w = elim (Bool-cases (leb req.proposal_num a.promised_proposal_num)) [
      | inl h ↦ rw h (passed (λ e. ground (arith, h)) (λ e. ground (arith, t, e)) (rw h at w))
      | inr h ↦ rw h (promised t (ground (arith, h)) (rw h at w))
    ]

    accept-Walk :
        req.type ≡ RequestType.propose
        → WalkOf reqs later (accept serialize req a).0
        → WalkOf (req ∷ reqs) (taught (accept serialize req a).1 ++ later) a
    unfolding accept nack
    accept-Walk t w =
        elim (Bool-cases (
          not (req.proposal_num == a.promised_proposal_num)
          || leb req.proposal_num a.accepted_proposal_num)) [
            | inl h ↦ rw h (passed (λ e. ground (arith, t, e)) (λ e. refused h) (rw h at w))
            | inr h ↦ rw h (
                accepted t (ground (arith, h)) (ground (arith, h)) (learn_request-Report req)
                  (on_accept (ground (arith, h)) (rw h at w)))
          ]
      where
        on_accept :
            a.promised_proposal_num ≡ req.proposal_num
            → Walk serialize a.promised_proposal_num a.promised_proposal_num reqs later
            → Walk serialize a.promised_proposal_num req.proposal_num reqs later
        on_accept e v = subst (λ n. Walk serialize a.promised_proposal_num n reqs later) e v

        refused :
            (not (req.proposal_num == a.promised_proposal_num)
                || leb req.proposal_num a.accepted_proposal_num)
              ≡ true
            → (req.proposal_num ≢ a.promised_proposal_num)
              ⊎ (req.proposal_num ≤ a.accepted_proposal_num)
        refused h = elim (Bool-cases (leb req.proposal_num a.accepted_proposal_num)) [
          | inl k ↦ inr (ground (arith, k))
          | inr k ↦ inl (ground (arith, h, k))
        ]

  by_type :
      (t : RequestType) (req : Request) (reqs later : List Request) (a : Accepter)
      → req.type ≡ t
      → WalkOf reqs later (handle serialize t req a).0
      → WalkOf (req ∷ reqs) (taught (handle serialize t req a).1 ++ later) a
  unfolding handle
  by_type RequestType.prepare req reqs later a e w = promise-Walk req reqs later a e w
  by_type RequestType.propose req reqs later a e w = accept-Walk req reqs later a e w
  by_type _ req reqs later a e w = passed (λ q. ground (arith, e, q)) (λ q. ground (arith, e, q)) w

  pub event_task-Walk :
      (reqs : List Request) (a : Accepter) → WalkOf reqs (taught (event_task serialize reqs a).1) a
  unfolding event_task
  event_task-Walk [] a = done
  event_task-Walk (req ∷ reqs) a =
      let (a', sent) = handle serialize req.type req a in
      let (a'', later) = event_task serialize reqs a' in
      subst (λ l. WalkOf (req ∷ reqs) l a) (sym (taught-append sent later))
        (by_type req.type req reqs (taught later) a refl (event_task-Walk reqs a'))

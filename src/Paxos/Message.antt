-- ===== src/Paxos/Message.antt =====
-- librange/core/store.proto: the messages between the store daemons. A field that is not set reads as
-- its default: 0, the empty string, or the first type.
use rangexx.Base.{Option, none, some, ℕ, Bool, true, false, List, [], Str}

pub data RequestType : Type 0 where
  request prepare propose learn replay failover heartbeat : RequestType

pub record Request : Type 0 where
  pub crc : ℕ
  pub client_id : Str
  pub request_id : ℕ
  pub method : Str
  pub args : List Str
  pub timestamp : ℕ
  pub type : RequestType
  pub proposal_num : ℕ
  pub proposer_id : ℕ
  pub sender_addr : ℕ
  pub sender_port : ℕ
  pub version : ℕ
  pub sequence_num : ℕ

pub data AckType : Type 0 where
  ack promise nack accepted : AckType

abbrev pub same_type : AckType → AckType → Bool
same_type AckType.ack AckType.ack = true
same_type AckType.promise AckType.promise = true
same_type AckType.nack AckType.nack = true
same_type AckType.accepted AckType.accepted = true
same_type _ _ = false

pub record Ack : Type 0 where
  pub status : Bool
  pub client_id : Str
  pub request_id : ℕ
  pub code : ℕ
  pub reason : Str
  pub type : AckType
  pub proposal_num : ℕ
  pub proposer_id : ℕ

-- The fields that every answer to a request takes from it.
abbrev pub answer : AckType → Bool → ℕ → Request → Ack
answer type status number req = record {
  status = status;
  client_id = req.client_id;
  request_id = req.request_id;
  code = 0;
  reason = [];
  type = type;
  proposal_num = number;
  proposer_id = req.proposer_id;
}

-- The queue that `submit` puts a request into, if any.
pub data Queue : Type 0 where
  to_proposer to_accepter to_learner : Queue

unfoldable pub submit : RequestType → Option Queue
submit RequestType.heartbeat = none
submit RequestType.replay = none
submit RequestType.failover = some to_proposer
submit RequestType.request = some to_proposer
submit RequestType.prepare = some to_accepter
submit RequestType.propose = some to_accepter
submit RequestType.learn = some to_learner

-- ===== src/Api/Requests.antt =====
-- librange/core/stored_message.h and stored_message.cpp, and the beginning of
-- librange/core/write_api.cpp: requests to the store daemon, and what its answer means.
use rangexx.Base.{
  ℕ, Bool, true, false, not, Option, none, some, List, [], ◌∷◌, Str, codes, str_eq, if◌then◌else◌,
  length, ◌==◌,
}
use rangexx.Base.Results.{
  ok, Kind, create_node, edge_not_found, incorrect_node_type, invalid_environment, node_exists,
  node_not_found, other,
}
use rangexx.Paxos.Message.{RequestType, Request, Ack}
use rangexx.Api.Action.{Action, pure, raise}
use rangexx.Api.Backend.{Backend}

-- `RangeAPI_v1::num_arguments`
unfoldable pub num_arguments : List (Str × ℕ)
num_arguments =
    (codes "create_env", 1)
    ∷ (codes "remove_env", 1)
    ∷ (codes "add_cluster_to_env", 2)
    ∷ (codes "remove_cluster_from_env", 2)
    ∷ (codes "add_cluster_to_cluster", 3)
    ∷ (codes "remove_cluster_from_cluster", 3)
    ∷ (codes "remove_cluster", 2)
    ∷ (codes "add_host_to_cluster", 3)
    ∷ (codes "remove_host_from_cluster", 3)
    ∷ (codes "add_host", 1)
    ∷ (codes "remove_host", 2)
    ∷ (codes "add_node_key_value", 4)
    ∷ (codes "remove_node_key_value", 4)
    ∷ (codes "remove_key_from_node", 3)
    ∷ (codes "add_node_ext_dependency", 4)
    ∷ (codes "remove_node_ext_dependency", 4)
    ∷ []

-- `std::map::find`
unfoldable pub lookup {ℓ} : {A : Type ℓ} → Str → List (Str × A) → Option A
unfolding str_eq
lookup key [] = none
lookup key ((k, a) ∷ t) = let rest = lookup key t in if str_eq key k then some a else rest

abbrev pub takes : ℕ → Option ℕ → Bool
takes n none = false
takes n (some m) = n == m

unfoldable pub verify_request : Request → Bool
unfolding num_arguments lookup
verify_request req =
    if str_eq req.method (codes "none")
    then true
    else takes (length req.args) (lookup req.method num_arguments)

-- What a client sets of a request: its id, the number of the request, the time and so on, and the
-- checksum of the request that has 0 in its place.
pub record Client : Type 0 where
  pub use_stored : Bool
  pub client_id : Str
  pub request_id : ℕ
  pub crc_of : Request → ℕ

-- `WriteRequest`, and its `req`
unfoldable pub write_request : Client → Str → List Str → Request
write_request c name args =
    let plain : Request = record {
      crc = 0;
      client_id = c.client_id;
      request_id = c.request_id;
      method = name;
      args = args;
      timestamp = 0;
      type = RequestType.request;
      proposal_num = 0;
      proposer_id = 0;
      sender_addr = 0;
      sender_port = 0;
      version = 0;
      sequence_num = 0;
    } in
    record plain { crc = c.crc_of plain }

-- `RangeAPI_v1::ErrorCode`; 7 stands for all other exceptions.
unfoldable pub error_code : Kind → ℕ
error_code create_node = 1
error_code edge_not_found = 2
error_code incorrect_node_type = 3
error_code invalid_environment = 4
error_code node_exists = 5
error_code node_not_found = 6
error_code _ = 7

module _ {S : Type 0} where
  unfoldable pub process_ack : Ack → Action S Bool
  process_ack ack =
      if ack.status
      then pure true
      else if ack.code == 1
      then raise create_node ack.reason
      else if ack.code == 2
      then raise edge_not_found ack.reason
      else if ack.code == 3
      then raise incorrect_node_type ack.reason
      else if ack.code == 4
      then raise invalid_environment ack.reason
      else if ack.code == 5
      then raise node_exists ack.reason
      else if ack.code == 6
      then raise node_not_found ack.reason
      else if ack.code == 7
      then raise other ack.reason
      else pure false

  -- `WriteRequest::send`, with `RequestQueueClient::request`
  unfoldable pub send : {V : Type 0} → Backend S V → Request → Action S Ack
  unfolding verify_request
  send b req =
      if not (verify_request req)
      then raise other (codes "invalid request")
      else (λ s. let (ack, s') = b.deliver req s in (ok ack, s'))

-- ===== src/Api/Dispatch.antt =====
-- stored/paxos_learner.cpp: a request that was learned is carried out through the table, and the client
-- gets an answer; and what the requests have to do with the calls.
use rangexx.Base.{
  ℕ, ◌≡◌, refl, sym, ap, ◌∙◌, Bool, true, false, Option, none, some, [], ◌∷◌, ◌++◌, Str, codes,
  str_eq, if◌then◌else◌,
}
use rangexx.Base.Results.{Result, ok, err, Kind, incorrect_number_of_arguments}
use rangexx.Paxos.Message.{Request, Ack, AckType}
use rangexx.Api.Names.{first_of}
use rangexx.Api.Action.{Action}
use rangexx.Api.Backend.{Backend}
use rangexx.Api.Requests.{Client, lookup, verify_request, write_request, error_code}
use rangexx.Api.Checked.{verified-IsCall, call_verified}
use rangexx.Api.Calls.{
  One, Two, Three, Four, Call, call_one, call_two, call_three, call_four, method_of, args_of,
  Handler, symtable_entry1, symtable_entry2, symtable_entry3, symtable_entry4, perform,
  write_api_symtable,
}

abbrev is_wrong_number : Kind → Bool
is_wrong_number incorrect_number_of_arguments = true
is_wrong_number _ = false

-- `type`, `proposal_num` and `proposer_id` are not set.
abbrev learned_ack : Request → Bool → ℕ → Str → Ack
learned_ack req status code reason = record {
  status = status;
  client_id = req.client_id;
  request_id = req.request_id;
  code = code;
  reason = reason;
  type = AckType.ack;
  proposal_num = 0;
  proposer_id = 0;
}

-- The answer to a request that has ended so; none goes out if the number of arguments is wrong.
unfoldable pub outcome_ack : Request → Result Bool → Option Ack
unfolding error_code
outcome_ack req (ok success) = some (learned_ack req success 0 [])
outcome_ack req (err e) =
    if is_wrong_number e.kind then none else some (learned_ack req false (error_code e.kind) e.what)

abbrev pub only_if : {A : Type 0} → Bool → Option A → Option A
only_if true o = o
only_if false o = none

module _ {S V : Type 0} (b : Backend S V) (c : Client) (fuel : ℕ) where
  -- What the handler, if there is one, makes of a request.
  abbrev pub handled : Option (Handler S) → Bool → Request → Action S Bool
  handled none unset req s = (ok unset, s)
  handled (some h) unset req s = h req.args req.proposer_id s

  -- `unset` is the value of `success` where it has none; `node_id` is that of this daemon, whose
  -- clients wait for the answer.
  unfoldable pub learn : Str → Bool → Request → S → Option Ack × S
  unfolding lookup write_api_symtable outcome_ack first_of str_eq
  learn node_id unset req s =
      let (r, s') = handled (lookup req.method (write_api_symtable b c fuel)) unset req s in
      (
        only_if (str_eq (first_of (node_id ++ 124 ∷ []) req.client_id) (node_id ++ 124 ∷ []))
            (outcome_ack req r),
        s',
      )

  -- The table gives, for the name of a call and its arguments, the call itself.
  pub table_lem :
      (call : Call)
      → (h : Handler S) × ((lookup (method_of call) (write_api_symtable b c fuel) ≡ some h)
          × (h (args_of call) ≡ perform b c fuel call))
  unfolding lookup write_api_symtable symtable_entry1 symtable_entry2 symtable_entry3
      symtable_entry4 str_eq
  table_lem (call_one One.create_env x) = (_, (refl, refl))
  table_lem (call_one One.remove_env x) = (_, (refl, refl))
  table_lem (call_one One.add_host x) = (_, (refl, refl))
  table_lem (call_two Two.add_cluster_to_env x y) = (_, (refl, refl))
  table_lem (call_two Two.remove_cluster_from_env x y) = (_, (refl, refl))
  table_lem (call_two Two.remove_cluster x y) = (_, (refl, refl))
  table_lem (call_two Two.remove_host x y) = (_, (refl, refl))
  table_lem (call_three Three.add_cluster_to_cluster x y z) = (_, (refl, refl))
  table_lem (call_three Three.remove_cluster_from_cluster x y z) = (_, (refl, refl))
  table_lem (call_three Three.add_host_to_cluster x y z) = (_, (refl, refl))
  table_lem (call_three Three.remove_host_from_cluster x y z) = (_, (refl, refl))
  table_lem (call_three Three.remove_key_from_node x y z) = (_, (refl, refl))
  table_lem (call_four Four.add_node_key_value w x y z) = (_, (refl, refl))
  table_lem (call_four Four.remove_node_key_value w x y z) = (_, (refl, refl))
  table_lem (call_four Four.add_node_ext_dependency w x y z) = (_, (refl, refl))
  table_lem (call_four Four.remove_node_ext_dependency w x y z) = (_, (refl, refl))

module _ {S V : Type 0} (b : Backend S V) (c : Client) (fuel : ℕ) where
  -- A request that is carried out as a call.
  pub record CarriedOut (req : Request) : Type 0 where
    pub call : Call
    pub method : method_of call ≡ req.method
    pub args : args_of call ≡ req.args
    pub done :
        (unset : Bool) (s : S)
        → handled b c fuel (lookup req.method (write_api_symtable b c fuel)) unset req s
          ≡ perform b c fuel call req.proposer_id s

  -- A request that passes the check of the queues, and whose method is not "none", names a call and
  -- has its arguments; it is carried out as that call, so that no wrong number of arguments shows.
  -- The requests that the API makes pass the check.
  pub verified_lem :
      ((req : Request)
        → verify_request req ≡ true
        → str_eq req.method (codes "none") ≡ false
        → CarriedOut req)
      × ((call : Call) → verify_request (write_request c (method_of call) (args_of call)) ≡ true)
  verified_lem = (carried_out, call_verified c)
    where
      carried_out :
          (req : Request)
          → verify_request req ≡ true
          → str_eq req.method (codes "none") ≡ false
          → CarriedOut req
      carried_out req h k =
          let (call, (m, a)) = verified-IsCall req h k in
          let (handler, (found, same)) = table_lem b c fuel call in
          record {
            call = call;
            method = m;
            args = a;
            done = λ unset s.
                ap (λ o. handled b c fuel o unset req s)
                  (ap (λ n. lookup n (write_api_symtable b c fuel)) (sym m) ∙ found)
                ∙ ap (λ as'. handler as' req.proposer_id s) (sym a)
                ∙ ap (λ f. f req.proposer_id s) same;
          }

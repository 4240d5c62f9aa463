-- ===== src/Api/Sent.antt =====
-- With a store daemon, a call changes no graph itself.
use rangexx.Base.{ℕ, ◌≡◌, refl, true}
use rangexx.Paxos.Message.{Request}
use rangexx.Api.Action.{scope}
use rangexx.Api.Backend.{Backend}
use rangexx.Api.Requests.{Client, write_request, send, process_ack}
use rangexx.Api.Write.Steps.{submit, expect}
use rangexx.Api.Write.Envs
use rangexx.Api.Write.Clusters
use rangexx.Api.Write.Hosts
use rangexx.Api.Write.Keys
use rangexx.Api.Write.Dependencies
use rangexx.Api.Calls.{
  One, Two, Three, Four, Call, call_one, call_two, call_three, call_four, method_of, args_of,
  perform,
}

-- The client of a daemon.
abbrev pub stored : Client → Client
stored c = record c { use_stored = true }

-- The graphs and their transactions of the first backend, the changes of the second, and the daemon of
-- the first, which is handed this request whatever is sent.
abbrev pub grafted : {S V : Type 0} → Backend S V → Backend S V → Request → Backend S V
grafted b other req = record other {
  graph = b.graph;
  start_txn = b.start_txn;
  end_txn = b.end_txn;
  deliver = λ r. b.deliver req;
}

-- With a store daemon, a call does the same whatever the operations that change the graphs and those of
-- the transaction log do, and whatever the daemon would make of another request than the one that has
-- the name and the arguments of the call: it reads the graph, and sends at most this request.
pub sent_lem :
    {S V : Type 0} (b other : Backend S V) (c : Client) (fuel : ℕ) (call : Call) (id : ℕ)
    → perform
        (grafted b other (write_request c (method_of call) (args_of call)))
        (stored c)
        fuel
        call
        id
      ≡ perform b (stored c) fuel call id
unfolding submit expect scope write_request send process_ack Envs.create_env Envs.remove_env
    Hosts.add_host Envs.add_cluster_to_env Envs.remove_cluster_from_env Clusters.remove_cluster
    Hosts.remove_host Clusters.add_cluster_to_cluster Clusters.remove_cluster_from_cluster
    Hosts.add_host_to_cluster Hosts.remove_host_from_cluster Keys.remove_key_from_node
    Keys.add_node_key_value Keys.remove_node_key_value Dependencies.add_node_ext_dependency
    Dependencies.remove_node_ext_dependency
sent_lem b other c fuel (call_one One.create_env x) id = refl
sent_lem b other c fuel (call_one One.remove_env x) id = refl
sent_lem b other c fuel (call_one One.add_host x) id = refl
sent_lem b other c fuel (call_two Two.add_cluster_to_env x y) id = refl
sent_lem b other c fuel (call_two Two.remove_cluster_from_env x y) id = refl
sent_lem b other c fuel (call_two Two.remove_cluster x y) id = refl
sent_lem b other c fuel (call_two Two.remove_host x y) id = refl
sent_lem b other c fuel (call_three Three.add_cluster_to_cluster x y z) id = refl
sent_lem b other c fuel (call_three Three.remove_cluster_from_cluster x y z) id = refl
sent_lem b other c fuel (call_three Three.add_host_to_cluster x y z) id = refl
sent_lem b other c fuel (call_three Three.remove_host_from_cluster x y z) id = refl
sent_lem b other c fuel (call_three Three.remove_key_from_node x y z) id = refl
sent_lem b other c fuel (call_four Four.add_node_key_value w x y z) id = refl
sent_lem b other c fuel (call_four Four.remove_node_key_value w x y z) id = refl
sent_lem b other c fuel (call_four Four.add_node_ext_dependency w x y z) id = refl
sent_lem b other c fuel (call_four Four.remove_node_ext_dependency w x y z) id = refl

-- ===== src/Api/WriteTests.antt =====
-- Runs of the write API in memory, and its theorems there.
use rangexx.Base.{
  ℕ, ◌≡◌, refl, Bool, true, false, none, some, List, [], ◌∷◌, Str, codes, str_eq, elem,
}
use rangexx.Base.Results.{Result, ok, err, Kind}
use rangexx.Paxos.Message.{Request}
use rangexx.Api.Backend.{Backend}
use rangexx.Api.Requests.{Client, write_request, verify_request}
use rangexx.Api.Memory.{Graphs, refused, in_memory}
use rangexx.Api.Sample.{prod, web, h1, all, sample, sample-Alike, reverse-Finite}
use rangexx.Search.Loop.{seen}
use rangexx.Api.Write.Envs
use rangexx.Api.Write.Hosts
use rangexx.Api.Write.Hosts.{expect_inside}
use rangexx.Api.Calls.{
  One, Two, Three, Call, call_one, call_two, call_three, method_of, args_of, perform,
}
use rangexx.Api.Dispatch.{CarriedOut, verified_lem, learn}
use rangexx.Api.Sent.{stored, grafted, sent_lem}
use rangexx.Api.Thrown.{local, thrown_lem}
use rangexx.Api.Coded.{ThrownSpec}
use rangexx.Api.Relay.{Ended, IsOf, Tells, relay_lem}
use rangexx.Api.Inside.{InsideSpec, expect_inside_lem}

abbrev client : Client
client = record {
  use_stored = false;
  client_id = codes "n1|7|8";
  request_id = 3;
  crc_of = λ req. 0;
}

abbrev nothing : Graphs
nothing = record { types = []; edges = []; tags = []; log = []; sent = [] }

abbrev add_env : Call
add_env = call_one One.create_env prod

abbrev add_web : Call
add_web = call_two Two.add_cluster_to_env prod web

abbrev add_h1 : Call
add_h1 = call_three Three.add_host_to_cluster prod web h1

abbrev run : List Call → Graphs → List (Result Bool) × Graphs
run [] s = ([], s)
run (call ∷ calls) s =
    let (r, s') = perform in_memory client 9 call 5 s in
    let (rs, s'') = run calls s' in (r ∷ rs, s'')

run_runs :
    (run (add_env ∷ add_web ∷ add_h1 ∷ add_h1 ∷ []) nothing).0
    ≡ ok true ∷ ok true ∷ ok true ∷ err (record { kind = Kind.node_exists; what = h1 }) ∷ []
unfolding Envs.create_env Envs.add_cluster_to_env Hosts.add_host_to_cluster
run_runs = refl

abbrev filled : Graphs
filled = (run (add_env ∷ add_web ∷ add_h1 ∷ []) nothing).1

sent_run :
    (perform in_memory (stored client) 9 add_h1 5 filled).0
    ≡ err (record { kind = Kind.node_exists; what = codes "taken" })
unfolding Envs.create_env Envs.add_cluster_to_env Hosts.add_host_to_cluster
sent_run = refl

verified_lem_example :
    ((req : Request)
      → verify_request req ≡ true
      → str_eq req.method (codes "none") ≡ false
      → CarriedOut in_memory client 9 req)
    × ((call : Call) → verify_request (write_request client (method_of call) (args_of call)) ≡ true)
verified_lem_example = verified_lem in_memory client 9

sent_lem_example :
    perform
      (grafted in_memory in_memory (write_request client (method_of add_h1) (args_of add_h1)))
      (stored client)
      9
      add_h1
      5
    ≡ perform in_memory (stored client) 9 add_h1 5
sent_lem_example = sent_lem in_memory in_memory client 9 add_h1 5

thrown_lem_example : ThrownSpec add_h1 (perform in_memory (local client) 9 add_h1 5 filled).0
thrown_lem_example = thrown_lem in_memory client 9 add_h1 5 filled

abbrev from_client : Request
from_client = record (write_request client (method_of add_h1) (args_of add_h1)) { proposer_id = 5 }

again_Ended : Ended (perform in_memory (local client) 9 add_h1 5 filled).0
unfolding Envs.create_env Envs.add_cluster_to_env Hosts.add_host_to_cluster
again_Ended = refl

from_client-IsOf : IsOf (codes "n1") from_client.client_id
unfolding write_request
from_client-IsOf = (codes "7|8", refl)

relay_lem_example :
    Tells ℕ
      (perform in_memory (local client) 9 add_h1 5 filled).0
      (learn in_memory (local client) 9 (codes "n1") false from_client filled).0
    × ((learn in_memory (local client) 9 (codes "n1") false from_client filled).1
        ≡ (perform in_memory (local client) 9 add_h1 5 filled).1)
unfolding write_request
relay_lem_example =
    relay_lem in_memory client 9 ℕ add_h1 from_client (codes "n1") false filled refl refl
      from_client-IsOf again_Ended

-- A backend that has always the same graph.
abbrev still : Backend ℕ Str
still = record {
  graph = λ w s. sample;
  create = λ w name s. (none, s);
  remove = λ w x s. (some x, s);
  set_type = λ t x s. (x, s);
  add_forward_edge = λ x y back s. (false, (x, (y, s)));
  remove_forward_edge = λ x y back s. (false, (x, (y, s)));
  remove_reverse_edge = λ x y back s. (false, (x, (y, s)));
  update_tag = λ key vs x s. (true, (x, s));
  delete_tag = λ key x s. (false, (x, s));
  start_txn = λ w s. s;
  end_txn = λ w failed s. s;
  start_range = λ req s. s;
  end_range = λ req failed s. s;
  deliver = λ req s. (refused req, s);
}

h1_listed : seen sample.node.name h1 all ≡ true
unfolding seen elem str_eq
h1_listed = refl

expect_inside_lem_example :
    InsideSpec sample.node 9 prod h1 (expect_inside still client 9 prod h1 0).0
    × ((expect_inside still client 9 prod h1 0).1 ≡ 0)
expect_inside_lem_example =
    expect_inside_lem still client 9 prod h1 0 all sample-Alike.reverse reverse-Finite.closed
      h1_listed reverse-Finite.enough

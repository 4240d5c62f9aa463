-- ===== src/Api/Backend.antt =====
-- librange/db/db_interface.h, librange/graph: what the write API calls of the backend, the graphs and
-- their nodes. `S` is the state of the backend, with both graphs; `V` stands for the objects that
-- `node_t` points to, which an operation gives back as it leaves them.
use rangexx.Base.{Bool, Option, List, Str}
use rangexx.Node.Info.{NodeType}
use rangexx.Graph.Interface.{GraphInterface}
use rangexx.Paxos.Message.{Request, Ack}

pub data Which : Type 0 where
  primary dependency : Which

pub record Backend (S V : Type 0) : Type 0 where
  pub graph : Which → S → GraphInterface V
  pub create : Which → Str → S → Option V × S
  pub remove : Which → V → S → Option V × S
  pub set_type : NodeType → V → S → V × S
  -- The node, the other node, and whether the other one is given the edge back.
  pub add_forward_edge : V → V → Bool → S → Bool × (V × (V × S))
  pub remove_forward_edge : V → V → Bool → S → Bool × (V × (V × S))
  pub remove_reverse_edge : V → V → Bool → S → Bool × (V × (V × S))
  pub update_tag : Str → List Str → V → S → Bool × (V × S)
  pub delete_tag : Str → V → S → Bool × (V × S)
  -- Transactions: on one graph, and the one that logs the request. One ends with its scope, by an
  -- exception or not.
  pub start_txn : Which → S → S
  pub end_txn : Which → Bool → S → S
  pub start_range : Request → S → S
  pub end_range : Request → Bool → S → S
  -- What the store daemon answers to a request, if it answers in time.
  pub deliver : Request → S → Ack × S

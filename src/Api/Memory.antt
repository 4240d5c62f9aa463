-- ===== src/Api/Memory.antt =====
-- A backend in memory, for runs of the write API.
use rangexx.Base.{
  Bool, true, false, ◌&&◌, ◌||◌, Option, none, some, List, [], ◌∷◌, ◌++◌, Str, codes, str_eq,
  if◌then◌else◌,
}
use rangexx.Node.Info.{NodeType, unknown}
use rangexx.Node.Tags.{TagTable, put}
use rangexx.Paxos.Message.{Request, Ack, AckType}
use rangexx.Api.Backend.{Which, primary, dependency, Backend}

-- A node is its graph and its name.
pub record Obj : Type 0 where
  pub which : Which
  pub name : Str

pub record Graphs : Type 0 where
  pub types : List (Obj × NodeType)
  pub edges : List (Obj × Obj)
  pub tags : List (Obj × TagTable)
  pub log : List Request
  pub sent : List Request

abbrev same_graph : Which → Which → Bool
same_graph primary primary = true
same_graph dependency dependency = true
same_graph _ _ = false

abbrev same : Obj → Obj → Bool
same x y = same_graph x.which y.which && str_eq x.name y.name

abbrev at_key : {A : Type 0} → Obj → List (Obj × A) → Option A
at_key x [] = none
at_key x ((y, a) ∷ t) = let rest = at_key x t in if same x y then some a else rest

abbrev or_value : {A : Type 0} → A → Option A → A
or_value a none = a
or_value a (some b) = b

abbrev if_known : {A : Type 0} → Obj → Option A → Option Obj
if_known x none = none
if_known x (some a) = some x

abbrev targets : Obj → List (Obj × Obj) → List Obj
targets x [] = []
targets x ((y, z) ∷ t) = let rest = targets x t in if same x y then z ∷ rest else rest

abbrev sources : Obj → List (Obj × Obj) → List Obj
sources x [] = []
sources x ((y, z) ∷ t) = let rest = sources x t in if same x z then y ∷ rest else rest

abbrev has_edge : Obj → Obj → List (Obj × Obj) → Bool
has_edge x y [] = false
has_edge x y ((u, v) ∷ t) = same x u && same y v || has_edge x y t

abbrev drop_edges : (Obj → Obj → Bool) → List (Obj × Obj) → List (Obj × Obj)
drop_edges gone [] = []
drop_edges gone ((u, v) ∷ t) =
    let rest = drop_edges gone t in if gone u v then rest else (u, v) ∷ rest

abbrev known : Which → List (Obj × NodeType) → List Obj
known w [] = []
known w ((x, t) ∷ rest) =
    let others = known w rest in if same_graph x.which w then x ∷ others else others

abbrev drop_key : {A : Type 0} → Obj → List (Obj × A) → List (Obj × A)
drop_key x [] = []
drop_key x ((y, a) ∷ t) = let rest = drop_key x t in if same x y then rest else (y, a) ∷ rest

abbrev pub object : Which → Str → Obj
object w name = record { which = w; name = name }

abbrev cut : Obj → Obj → Graphs → Bool × (Obj × (Obj × Graphs))
cut x y s = (
  has_edge x y s.edges,
  (x, (y, record s { edges = drop_edges (λ u v. same x u && same y v) s.edges })),
)

abbrev set_tags : Obj → TagTable → Graphs → Graphs
set_tags x t s = record s { tags = (x, t) ∷ drop_key x s.tags }

abbrev tags_of : Obj → Graphs → TagTable
tags_of x s = or_value [] (at_key x s.tags)

abbrev without : Str → TagTable → TagTable
without key [] = []
without key ((k, vs) ∷ t) =
    let rest = without key t in if str_eq key k then rest else (k, vs) ∷ rest

abbrev has : Str → TagTable → Bool
has key [] = false
has key ((k, vs) ∷ t) = str_eq key k || has key t

abbrev pub refused : Request → Ack
refused req = record {
  status = false;
  client_id = req.client_id;
  request_id = req.request_id;
  code = 5;
  reason = codes "taken";
  type = AckType.ack;
  proposal_num = 0;
  proposer_id = 0;
}

abbrev pub in_memory : Backend Graphs Obj
in_memory = record {
  graph = λ w s. record {
    node = record {
      name = λ x. x.name;
      type = λ x. or_value unknown (at_key x s.types);
      forward_edges = λ x. targets x s.edges;
      reverse_edges = λ x. sources x s.edges;
      tags = λ x. tags_of x s;
    };
    get_node = λ name. if_known (object w name) (at_key (object w name) s.types);
    nodes = known w s.types;
  };
  create = λ w name s. elim (at_key (object w name) s.types) as (λ y. Option Obj × Graphs) [
    | none ↦ (some (object w name), record s { types = (object w name, unknown) ∷ s.types })
    | some t ↦ (none, s)
  ];
  remove = λ w x s. (some x, record s { edges = drop_edges (λ u v. same x u || same x v) s.edges });
  set_type = λ t x s. (x, record s { types = (x, t) ∷ drop_key x s.types });
  add_forward_edge = λ x y back s.
      if has_edge x y s.edges
      then (false, (x, (y, s)))
      else (true, (x, (y, record s { edges = (x, y) ∷ s.edges })));
  remove_forward_edge = λ x y back s. cut x y s;
  remove_reverse_edge = λ x y back s. let (r, (u, (v, s'))) = cut y x s in (r, (v, (u, s')));
  update_tag = λ key vs x s. (true, (x, set_tags x (put key vs (tags_of x s)) s));
  delete_tag = λ key x s. (has key (tags_of x s), (x, set_tags x (without key (tags_of x s)) s));
  start_txn = λ w s. s;
  end_txn = λ w failed s. s;
  start_range = λ req s. s;
  end_range = λ req failed s. if failed then s else record s { log = s.log ++ req ∷ [] };
  deliver = λ req s. (refused req, record s { sent = s.sent ++ req ∷ [] });
}

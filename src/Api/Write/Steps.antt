-- ===== src/Api/Write/Steps.antt =====
-- The steps that the operations of the write API share.
use rangexx.Base.{ℕ, Bool, true, not, Option, none, some, List, ◌++◌, Str, codes, if◌then◌else◌}
use rangexx.Base.Results.{ok, create_node, incorrect_node_type}
use rangexx.Node.Info.{NodeType, type_eq}
use rangexx.Graph.Interface.{node_type_names}
use rangexx.Api.Action.{Action, pure, ◌>>=◌, ◌>>◌, gets, raise_if, or_raise, scope}
use rangexx.Api.Backend.{Which, primary, dependency, Backend}
use rangexx.Api.Requests.{Client, write_request, send, process_ack}

-- The text of an `IncorrectNodeTypeException`.
unfoldable pub type_message : Str → NodeType → Str → Str
unfolding node_type_names
type_message name found wanted =
    name ++ (codes " has type " ++ (node_type_names found ++ (codes ", should be " ++ wanted)))

abbrev pub left : {V : Type 0} → V → Option V → V
left n none = n
left n (some m) = m

module _ {S V : Type 0} (b : Backend S V) where
  abbrev pub in_txn : {A : Type 0} → Which → Action S A → Action S A
  in_txn w = scope (b.start_txn w) (b.end_txn w)

  abbrev pub find_node : Which → Str → Action S (Option V)
  find_node w name = gets (λ s. (b.graph w s).get_node name)

  abbrev pub type_of : Which → V → Action S NodeType
  type_of w n = gets (λ s. (b.graph w s).node.type n)

  -- Throws if the node has another type.
  unfoldable pub expect : Which → V → NodeType → Str → Action S Unit
  unfolding type_eq type_message node_type_names
  expect w n type name = do
    found ← type_of w n
    raise_if (not (type_eq found type)) incorrect_node_type
        (type_message name found (node_type_names type))

  abbrev pub made : Which → Str → Action S (Option V)
  made w name s = let (o, s') = b.create w name s in (ok o, s')

  abbrev pub retyped : NodeType → V → Action S V
  retyped type n s = let (n', s') = b.set_type type n s in (ok n', s')

  -- A new node with this type.
  unfoldable pub create_typed : Which → Str → NodeType → Action S V
  create_typed w name type = do o ← made w name; n ← or_raise o create_node name; retyped type n

  -- The node, or a new one with this type.
  unfoldable pub create_missing : Which → Str → NodeType → Option V → Action S V
  unfolding create_typed
  create_missing w name type none = create_typed w name type
  create_missing w name type (some n) = pure n

  -- In the dependency graph it is no error if no node can be made.
  unfoldable pub add_dependency : Str → NodeType → Action S Unit
  add_dependency name type = do
    n ← find_node dependency name
    elim n [
      | some n ↦ pure tt
      | none ↦ do
        o ← made dependency name
        elim o [ none ↦ pure tt | some m ↦ retyped type m >> pure tt ]
    ]

  abbrev pub linked : V → V → Action S Bool
  linked n m s = let (r, (n', (m', s'))) = b.add_forward_edge n m true s in (ok r, s')

  abbrev pub unlinked : V → V → Action S Bool
  unlinked n m s = let (r, (n', (m', s'))) = b.remove_forward_edge n m true s in (ok r, s')

  abbrev pub unlinked_back : V → V → Action S Bool
  unlinked_back n m s = let (r, (n', (m', s'))) = b.remove_reverse_edge n m true s in (ok r, s')

  abbrev pub removed : Which → V → Action S (Option V)
  removed w n s = let (o, s') = b.remove w n s in (ok o, s')

  -- `remove` in the one graph and then in the other, with the object that the first has left.
  unfoldable pub remove_both : V → Action S Unit
  remove_both n = do o ← removed primary n; removed dependency (left n o); pure tt

  -- The request is sent to the store daemon, or carried out here for the proposer of this number.
  unfoldable pub submit : Client → Str → List Str → ℕ → Action S Bool → Action S Bool
  unfolding write_request send process_ack scope
  submit c name args id local =
      let req = write_request c name args in
      let logged = record req { proposer_id = id } in
      if c.use_stored
      then (do ack ← send b req; process_ack ack)
      else scope (b.start_range logged) (b.end_range logged) local

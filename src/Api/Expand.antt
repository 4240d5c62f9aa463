-- ===== src/Api/Expand.antt =====
-- librange/core/read_api.cpp: `expand`, the tree below a node, and the expansion of a range expression.
use rangexx.Base.{
  ℕ, zero, suc, true, false, Option, none, some, List, [], ◌∷◌, ◌++◌, map, Str, codes, leb, str_eq,
  if◌then◌else◌, length,
}
use rangexx.Base.Results.{
  Result, ok, throw, ◌>>=◌, incorrect_node_type, invalid_range_expression, Kind,
}
use rangexx.Search.Loop.{seen}
use rangexx.Node.Info.{NodeType, environment, cluster, type_eq}
use rangexx.Node.Tags.{TagTable}
use rangexx.Graph.Interface.{GraphInterface, node_type_names}
use rangexx.Compiler.Syntax.{Ast}
use rangexx.Compiler.Visitor.{Libraries, visit}
use rangexx.Api.Names.{env_prefix, unprefix_node_name, prefixed_node_name}
use rangexx.Api.Lookup.{get_node, required, lookup, fetch_all_keys, throw_if}
use rangexx.Api.Sort.{Frame, frame, erase, marked}

-- The object of a node: its type, name, tags, children by their names, and dependencies.
mutual
  pub data Expanded : Type 0 where
    object : Str → Str → TagTable → Children → List Str → Expanded

  pub data Children : Type 0 where
    no_children : Children
    child : Str → Expanded → Children → Children

unfoldable pub put_child : Str → Expanded → Children → Children
put_child name e no_children = child name e no_children
put_child name e (child other f rest) =
    let later = put_child name e rest in
    if str_eq name other then child name e rest else child other f later

abbrev pub add_child : Str → Expanded → Expanded → Expanded
add_child name e (object type own tags children deps) =
    object type own tags (put_child name e children) deps

module _ {V W : Type 0} (g : GraphInterface V) (dependency : GraphInterface W)
    (env_name node_name : Str) (depth : ℕ) where
  abbrev names_of_edges : Option W → List Str
  names_of_edges none = []
  names_of_edges (some d) = map dependency.node.name (dependency.node.forward_edges d)

  -- `ret` when its node is first on the top; the tags are those of the node that was asked for.
  unfoldable pub describe : V → Result Expanded
  unfolding fetch_all_keys unprefix_node_name node_type_names
  describe v = fetch_all_keys g env_name node_name >>= λ tags. ok (
      object (node_type_names (g.node.type v)) (unprefix_node_name env_name (g.node.name v)) tags
        no_children (names_of_edges (dependency.get_node (g.node.name v))))

  -- A frame with its `ret`, which is set where there is one.
  abbrev pub Growing : Type 0
  Growing = Frame V × Option Expanded

  abbrev entered : List V → Growing → Result Expanded
  entered onstack (f, none) = describe f.0
  entered onstack (f, some ret) = if seen g.node.name f.0 onstack then ok ret else describe f.0

  abbrev given : Str → Expanded → Growing → Growing
  given name e (f, none) = (f, none)
  given name e (f, some ret) = (f, some (add_child name e ret))

  unfoldable pub expand_from : ℕ → List V → List Growing → Result (Option Expanded)
  unfolding describe seen frame erase
  expand_from fuel onstack [] = ok none
  expand_from zero onstack (f ∷ stack) = throw Kind.out_of_fuel []
  expand_from (suc fuel) onstack (((v, out), r) ∷ stack) = entered onstack ((v, out), r) >>= λ ret.
      elim (if leb (suc (length stack)) depth then out else []) [
        | [] ↦ elim stack [
          | [] ↦ ok (some ret)
          | u ∷ rest ↦
              expand_from fuel (erase g.node v (marked g.node v onstack))
                (given (g.node.name v) ret u ∷ rest)
        ]
        | e ∷ es ↦ elim (seen g.node.name e (marked g.node v onstack)) [
          | true ↦ expand_from fuel (marked g.node v onstack) (((v, es), some ret) ∷ stack)
          | false ↦
              expand_from fuel (marked g.node v onstack)
                ((frame g.node e, none) ∷ ((v, es), some ret) ∷ stack)
        ]
      ]

module _ {V W : Type 0} (g : GraphInterface V) (dependency : GraphInterface W) (fuel : ℕ) where
  unfoldable pub expand : Str → Str → ℕ → Result (Option Expanded)
  unfolding get_node prefixed_node_name expand_from frame
  expand env_name node_name depth = lookup g env_name node_name >>= λ n.
      expand_from g dependency env_name node_name depth fuel [] ((frame g.node n, none) ∷ [])

  abbrev is_type : NodeType → Str → V → Result Unit
  is_type type text n =
      throw_if (if type_eq (g.node.type n) type then false else true)
        (throw incorrect_node_type (node_type_names (g.node.type n) ++ text))

  unfoldable pub expand_cluster : Str → Str → ℕ → Result (Option Expanded)
  unfolding expand prefixed_node_name node_type_names
  expand_cluster env_name cluster_name depth =
      required (prefixed_node_name env_name cluster_name)
        (g.get_node (prefixed_node_name env_name cluster_name))
      >>= λ n. is_type cluster (codes " != CLUSTER") n >>= λ _. expand env_name cluster_name depth

  unfoldable pub expand_env : Str → ℕ → Result (Option Expanded)
  unfolding expand node_type_names
  expand_env env_name depth = required env_name (g.get_node env_name) >>= λ n.
      is_type environment (codes " != ENVIRONMENT") n >>= λ _. expand env_name [] depth

-- `parse` stands for the generated scanner and parser.
module _ {V : Type 0} (parse : Str → Option Ast) (lib : Libraries) (g : GraphInterface V)
    (fuel : ℕ) where
  abbrev parsed : Str → Result Ast
  parsed expression = elim (parse expression) [
    | none ↦ throw invalid_range_expression expression
    | some top ↦ ok top
  ]

  unfoldable pub expand_range_expression : Str → Str → Result (List Str)
  unfolding visit env_prefix unprefix_node_name
  expand_range_expression env_name expression = parsed expression >>= λ top.
      visit lib g fuel env_name (env_prefix env_name) top >>= λ results.
      ok (map (unprefix_node_name env_name) results)

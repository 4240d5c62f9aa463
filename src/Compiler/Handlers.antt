-- ===== src/Compiler/Handlers.antt =====
-- What the visitor does with the children of a node of the syntax tree, for those that ask the graph,
-- filter by a regular expression or combine texts.
use rangexx.Base.{
  Bool, true, false, not, ◌&&◌, Option, none, some, List, [], ◌∷◌, ◌++◌, Str, str_eq, codes,
  if◌then◌else◌, length, ltb,
}
use rangexx.Node.Tags.{TagTable, find}
use rangexx.Compiler.Order.{sort}

-- What `get_node` finds under a name: the names at the ends of its edges and its tags.
pub record Vertex : Type 0 where
  pub forward_edges : List Str
  pub reverse_edges : List Str
  pub tags : TagTable

abbrev pub Graph : Type 0
Graph = Str → Option Vertex

-- `regex_filter` on the left children; `found` is `regex_search` with the expression, `positive` its
-- flag. The local `positive` of the source is the negation of the flag.
unfoldable pub regex_filter : (Str → Bool) → Bool → List Str → List Str
regex_filter found positive [] = []
regex_filter found positive (w ∷ ws) =
    let rest = regex_filter found positive ws in
    if (if not positive then not (found w) else found w) then w ∷ rest else rest

-- `ASTIntersection` and `ASTDifference` with a regular expression on the right, given how it is
-- compiled; `none` is an invalid expression.
unfoldable pub filter_intersection :
    (Str → Option (Str → Bool)) → Str → Bool → List Str → Option (List Str)
unfolding regex_filter sort
filter_intersection compile word positive ls = elim (compile word) [
  | none ↦ none
  | some found ↦ some (regex_filter found positive (sort ls))
]

unfoldable pub filter_difference :
    (Str → Option (Str → Bool)) → Str → Bool → List Str → Option (List Str)
unfolding regex_filter sort
filter_difference compile word positive ls = elim (compile word) [
  | none ↦ none
  | some found ↦ some (regex_filter found (not positive) (sort ls))
]

abbrev is_empty : Str → Bool
is_empty [] = true
is_empty (b ∷ s) = false

abbrev pub starts_with : Str → Str → Bool
starts_with [] child = true
starts_with (a ∷ prefix) [] = false
starts_with (a ∷ prefix) (b ∷ child) = str_eq (a ∷ []) (b ∷ []) && starts_with prefix child

abbrev pub has_vertex : Option Vertex → Bool
has_vertex none = false
has_vertex (some v) = true

unfoldable pub prefix_child : Graph → Str → Str → Str
prefix_child graph prefix child =
    if is_empty prefix
    then child
    else if starts_with prefix child
    then child
    else if has_vertex (graph (prefix ++ child))
    then prefix ++ child
    else child

-- The loop of `ASTExpand`, `ASTGetCluster` and `ASTKeyExpand` over the children, each with what it
-- takes of a node; `none` is a child that cannot be resolved.
unfoldable pub collect : (Vertex → List Str) → Graph → Str → List Str → Option (List Str)
unfolding prefix_child
collect part graph prefix [] = some []
collect part graph prefix (child ∷ children) =
    let rest = collect part graph prefix children in
    elim (graph (prefix_child graph prefix child)) [
      | none ↦ none
      | some v ↦ elim rest [ none ↦ none | some names ↦ some (part v ++ names) ]
    ]

-- `std::unique` on a list with this first element.
unfoldable pub unique_from : Str → List Str → List Str
unique_from a [] = a ∷ []
unique_from a (b ∷ ys) = if str_eq a b then unique_from a ys else a ∷ unique_from b ys

unfoldable pub unique : List Str → List Str
unfolding unique_from
unique [] = []
unique (a ∷ ys) = unique_from a ys

abbrev pub sort_unique : Option (List Str) → Option (List Str)
sort_unique none = none
sort_unique (some xs) = some (unique (sort xs))

-- `ASTExpand`, by whether its child is an `ASTKeyExpand`
unfoldable pub expand : Bool → Graph → Str → List Str → Option (List Str)
unfolding collect sort unique
expand key_expand graph prefix children =
    sort_unique
      (if key_expand then some children else collect (λ v. v.forward_edges) graph prefix children)

unfoldable pub get_cluster : Graph → Str → List Str → Option (List Str)
unfolding collect
get_cluster graph prefix children = collect (λ v. v.reverse_edges) graph prefix children

abbrev key_names : TagTable → List Str
key_names [] = []
key_names ((k, vs) ∷ t) = k ∷ key_names t

abbrev values_or : Option (List Str) → List Str
values_or none = []
values_or (some vs) = vs

unfoldable pub key_part : Str → Vertex → List Str
key_part word v =
    if str_eq word (codes "KEYS") then key_names v.tags else values_or (find word v.tags)

unfoldable pub key_expand : Graph → Str → Str → List Str → Option (List Str)
unfolding collect key_part
key_expand graph prefix word children = collect (key_part word) graph prefix children

abbrev each : Str → List Str → List Str
each s [] = []
each s (t ∷ ts) = (s ++ t) ∷ each s ts

abbrev pairs : List Str → List Str → List Str
pairs [] ts = []
pairs (s ∷ ss) ts = each s ts ++ pairs ss ts

-- `ASTBraceExpand`, as it is built without `_ENABLE_TESTING`
unfoldable pub brace_expand : List Str → List Str → List Str → List Str
brace_expand ls cs rs =
    let tmp = if ltb 0 (length ls) then pairs ls cs else cs in
    if ltb 0 (length rs) then pairs tmp rs else tmp

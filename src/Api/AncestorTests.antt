-- ===== src/Api/AncestorTests.antt =====
-- Runs of `nearest_common_ancestor`, and its theorem on a small graph.
use rangexx.Base.{
  ℕ, ◌+◌, ◌≡◌, refl, ◌&&◌, Option, some, none, List, [], ◌∷◌, Str, str_eq, elem, leb, ◌==◌,
  if◌then◌else◌, arith,
}
use rangexx.Base.Results.{ok}
use rangexx.Search.Loop.{seen}
use rangexx.Search.Ends.{weight}
use rangexx.Node.Info.{NodeType}
use rangexx.Graph.Interface.{GraphInterface}
use rangexx.Api.Names.{unprefix_node_name}
use rangexx.Api.Lookup.{lookup}
use rangexx.Api.Sample.{prod, web, h1, all, sample, sample-Alike, reverse-Finite}
use rangexx.Api.Ancestor.{depth_of, turn, meet, nearest_common_ancestor}
use rangexx.Api.Meeting.{AncestorSpec, nearest_common_ancestor_lem}

ancestor_run : nearest_common_ancestor sample 18 prod h1 web ≡ ok (some web)
unfolding nearest_common_ancestor meet turn depth_of seen elem str_eq unprefix_node_name
ancestor_run = refl

nearest_common_ancestor_lem_example :
    AncestorSpec sample prod
      (lookup sample prod h1)
      (lookup sample prod web)
      (nearest_common_ancestor sample 18 prod h1 web)
nearest_common_ancestor_lem_example =
    nearest_common_ancestor_lem sample prod sample-Alike 18 all
      (record {
        closed = reverse-Finite.closed;
        looked_up = reverse-Finite.looked_up;
        enough = omega (arith, reverse-Finite.enough);
      })
      (unfold weight seen elem str_eq in omega arith) h1 web

-- Node 1 is below a long chain, 11, 12, and so on; node 2 is below 12, some others, and 11.
abbrev chain : ℕ → List ℕ
chain k =
    if k == 1
    then 11 ∷ []
    else if k == 2
    then 12 ∷ 22 ∷ 23 ∷ 24 ∷ 25 ∷ 26 ∷ 27 ∷ 11 ∷ []
    else if leb 11 k && leb k 18
    then (k + 1) ∷ []
    else []

abbrev found : Str → Option ℕ
found [] = none
found (k ∷ []) = some k
found (k ∷ j ∷ s) = none

abbrev chained : GraphInterface ℕ
chained = record {
  node = record {
    name = λ k. k ∷ [];
    type = λ k. NodeType.host;
    forward_edges = λ k. [];
    reverse_edges = chain;
    tags = λ k. [];
  };
  get_node = found;
  nodes = [];
}

-- The search from node 1 is deeper than twice the first distance before the one from node 2 has
-- come to 11, which is two edges away from both together, and gives 12, which is three.
not_nearest_run : nearest_common_ancestor chained 40 [] (1 ∷ []) (2 ∷ []) ≡ ok (some (12 ∷ []))
unfolding nearest_common_ancestor meet turn depth_of seen elem str_eq unprefix_node_name
not_nearest_run = refl

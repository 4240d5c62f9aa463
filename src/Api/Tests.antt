-- ===== src/Api/Tests.antt =====
-- Runs of the read API on a small graph, and its theorems there.
use rangexx.Base.{true, ◌≡◌, refl, [], ◌∷◌, codes, str_eq, elem}
use rangexx.Base.Results.{ok}
use rangexx.Search.Loop.{depth, seen, search, push_all}
use rangexx.Search.Explored.{SearchSpec, search_lem}
use rangexx.Node.Tags.{find}
use rangexx.Api.Names.{unprefix_node_name, Plain, prefixed-apart}
use rangexx.Api.Lookup.{get_node, lookup}
use rangexx.Api.Searches.{
  never, all_clusters, bfs_search_parents_for_first_key, find_orphaned_nodes, found_of_type,
}
use rangexx.Api.Picks.{GetNodeSpec, get_node_lem}
use rangexx.Api.Found.{ClustersSpec, all_clusters_lem}
use rangexx.Api.FirstKey.{KeySpec, NearestAbove, bfs_lem}
use rangexx.Api.Sample.{
  prod, web, h1, h2, all, above, sample, sample-Alike, forward-Finite, reverse-Finite,
}

search_runs :
    (all_clusters sample 9 prod ≡ ok (web ∷ []))
    × (bfs_search_parents_for_first_key sample 9 prod h1 h2 ≡ ok (web, h1 ∷ []))
    × (find_orphaned_nodes sample 9 ≡ ok ((codes "HOST", h2) ∷ []))
unfolding all_clusters bfs_search_parents_for_first_key find_orphaned_nodes search found_of_type
    unprefix_node_name str_eq elem seen push_all find
search_runs = (refl, refl, refl)

prod-Plain : Plain prod
prod-Plain = (refl, (refl, (refl, (refl, tt))))

prefixed-apart_example : (prod ≡ prod) × (web ≡ web)
prefixed-apart_example =
    prefixed-apart prod prod web web prod-Plain prod-Plain refl refl refl refl refl

get_node_lem_example : GetNodeSpec sample prod h1 (get_node sample prod h1)
get_node_lem_example = get_node_lem sample prod h1

all_clusters_lem_example :
    ClustersSpec sample prod (sample.get_node prod) (all_clusters sample 9 prod)
all_clusters_lem_example = all_clusters_lem sample sample-Alike 9 all forward-Finite prod

bfs_lem_example :
    KeySpec sample prod h2
      (NearestAbove sample prod h2)
      (lookup sample prod h1)
      (bfs_search_parents_for_first_key sample 9 prod h1 h2)
bfs_lem_example = bfs_lem sample sample-Alike 9 all reverse-Finite prod h1 h2

h1_is_listed : seen sample.node.name h1 all ≡ true
unfolding seen elem str_eq
h1_is_listed = refl

search_lem_example :
    SearchSpec sample.node.name above never
      (h1 ∷ [])
      (search sample.node.name above depth never 9 [] (h1 ∷ []))
search_lem_example =
    search_lem sample.node.name above sample-Alike.reverse all reverse-Finite.closed depth never 9
      (h1 ∷ []) (h1_is_listed, tt) reverse-Finite.enough

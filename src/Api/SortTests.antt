-- ===== src/Api/SortTests.antt =====
-- Runs of `environment_topological_sort`, and its theorem on a small graph.
use rangexx.Base.{◌≡◌, refl, none, some, List, [], ◌∷◌, Str, codes, str_eq, elem, if◌then◌else◌}
use rangexx.Base.Results.{ok, throw, graph_cycle}
use rangexx.Search.Loop.{seen, search, push_all}
use rangexx.Graph.Interface.{GraphInterface}
use rangexx.Api.Names.{unprefix_node_name}
use rangexx.Api.Sample.{prod, web, prod_web, h1, all, type_at, above, sample}
use rangexx.Api.Sort.{
  out_edges, frame, erase, sort_from, sort_all, dependency_nodes, environment_topological_sort,
}
use rangexx.Api.Lookup.{fetch_all_keys}
use rangexx.Api.Expand.{
  object, no_children, child, put_child, describe, expand_from, expand, expand_env,
}

-- A dependency graph over the nodes of the sample.
abbrev depends : (Str → List Str) → GraphInterface Str
depends edges = record {
  node = record {
    name = λ s. s;
    type = type_at;
    forward_edges = edges;
    reverse_edges = above;
    tags = λ s. [];
  };
  get_node = λ s. if elem s all then some s else none;
  nodes = all;
}

-- The cluster depends on its host.
abbrev on_host : Str → List Str
on_host s = if str_eq s prod_web then h1 ∷ [] else []

-- The cluster depends on itself.
abbrev on_self : Str → List Str
on_self s = if str_eq s prod_web then prod_web ∷ [] else []

sort_runs :
    (environment_topological_sort sample (depends on_host) 9 prod ≡ ok (web ∷ h1 ∷ []))
    × (environment_topological_sort sample (depends on_self) 9 prod
        ≡ throw graph_cycle (codes "dependency cycle detected"))
unfolding environment_topological_sort sort_all sort_from dependency_nodes frame erase out_edges
    search seen push_all str_eq elem unprefix_node_name
sort_runs = (refl, refl)

-- At a depth of 1 the hosts of the cluster are left out.
expand_run :
    expand_env sample (depends on_host) 9 prod 1
    ≡ ok (
        some (
          object
            (codes "ENVIRONMENT")
            prod
            []
            (child prod_web (object (codes "CLUSTER") web [] no_children (h1 ∷ [])) no_children)
            []))
unfolding expand_env expand expand_from describe put_child frame erase out_edges seen push_all
    str_eq elem unprefix_node_name fetch_all_keys
expand_run = refl

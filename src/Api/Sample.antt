-- ===== src/Api/Sample.antt =====
-- A small graph, for runs of the API.
use rangexx.Base.{
  ◌≡◌, refl, ap, true, none, some, List, [], ◌∷◌, Str, codes, str_eq, elem, if◌then◌else◌, arith,
}
use rangexx.Search.Loop.{seen}
use rangexx.Search.Ends.{weight}
use rangexx.Node.Info.{NodeType, environment, cluster, host}
use rangexx.Node.Tags.{TagTable}
use rangexx.Graph.Interface.{GraphInterface}
use rangexx.Api.Found.{Alike, Finite}

abbrev pub prod : Str
prod = codes "prod"

abbrev pub web : Str
web = codes "web"

abbrev pub prod_web : Str
prod_web = codes "prod#web"

abbrev pub h1 : Str
h1 = codes "h1"

abbrev pub h2 : Str
h2 = codes "h2"

abbrev pub all : List Str
all = prod ∷ prod_web ∷ h1 ∷ h2 ∷ []

abbrev pub type_at : Str → NodeType
type_at s = if str_eq s prod then environment else if str_eq s prod_web then cluster else host

abbrev pub below : Str → List Str
below s = if str_eq s prod then prod_web ∷ [] else if str_eq s prod_web then h1 ∷ [] else []

abbrev pub above : Str → List Str
above s = if str_eq s h1 then prod_web ∷ [] else if str_eq s prod_web then prod ∷ [] else []

abbrev pub tags_at : Str → TagTable
tags_at s = if str_eq s prod_web then (h2, h1 ∷ []) ∷ [] else []

-- The environment `prod` with the cluster `web` and its host `h1`, and a host `h2`; a node is its name.
abbrev pub sample : GraphInterface Str
sample = record {
  node = record {
    name = λ s. s;
    type = type_at;
    forward_edges = below;
    reverse_edges = above;
    tags = tags_at;
  };
  get_node = λ s. if elem s all then some s else none;
  nodes = all;
}

pub sample-Alike : Alike sample.node
sample-Alike = record {
  type = λ u v e. ap type_at e;
  forward = λ u v e. ap below e;
  reverse = λ u v e. ap above e;
  tags = λ u v e. ap tags_at e;
}

pub looked_up : (s v : Str) → sample.get_node s ≡ some v → seen (λ x. x) v all ≡ true
unfolding seen
looked_up s v h = ground (arith, h)

pub forward-Finite : Finite sample below 9 all
unfolding seen elem str_eq weight
forward-Finite = record {
  closed = ((refl, tt), ((refl, tt), (tt, (tt, tt))));
  looked_up = looked_up;
  enough = omega arith;
}

pub reverse-Finite : Finite sample above 9 all
unfolding seen elem str_eq weight
reverse-Finite = record {
  closed = (tt, ((refl, tt), ((refl, tt), (tt, tt))));
  looked_up = looked_up;
  enough = omega arith;
}

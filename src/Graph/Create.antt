-- ===== src/Graph/Create.antt =====
-- What `create` leaves of a new node.
use rangexx.Base.{
  ℕ, ◌≡◌, refl, ◌∙◌, ap, inl, Bool, true, false, Option, some, [], ◌∷◌, Str, Bool-apart,
}
use rangexx.Node.Info.{NodeInfo, empty_info, init_default_nodeinfo}
use rangexx.Node.Edit.{has_version_from, add_graph_version_info}
use rangexx.Node.Storage.{RecordType, Wire, Storage}
use rangexx.Node.Object.{
  Node, newest, make_node, init_info, read_info, stamp, commit, write_record, add_graph_version,
}
use rangexx.Node.Stored.{current, Accepts, write_record_lem, current-same}
use rangexx.Graph.Nodes.{has_version_or_higher, create}

module _ (w : Wire) (s : Storage) (version : s.State → ℕ) (acc : Accepts w s) (name : Str)
    (st : s.State) (new : s.get_record RecordType.node name st ≡ []) where
  abbrev fresh : Node
  fresh = record (make_node name newest) {
    info = init_default_nodeinfo empty_info;
    info_initialized = true;
  }

  loaded : init_info w s st (make_node name newest) ≡ fresh
  unfolding init_info read_info
  loaded = rw new

  abbrev committed : s.State
  committed = (commit w s fresh st).1.1

  abbrev object : Node
  object = (commit w s fresh st).1.0

  abbrev noted : Node × s.State
  noted = add_graph_version w s (version committed) object committed

  create-new : create w s version name st ≡ (some noted.0, noted.1)
  unfolding create has_version_or_higher init_default_nodeinfo
  create-new = rw loaded refl

  abbrev is_node : RecordType → Bool
  is_node RecordType.node = true
  is_node _ = false

  node_kept :
      s.get_record RecordType.node name noted.1 ≡ s.get_record RecordType.node name committed
  unfolding add_graph_version init_info add_graph_version_info has_version_from commit write_record
      init_default_nodeinfo stamp
  node_kept =
      s.get-flush RecordType.node name _
      ∙ s.get-write_other RecordType.node_meta name _ _ committed RecordType.node name
          (inl (λ e. Bool-apart (ap is_node e))) (λ e. Bool-apart (ap is_node e))

  stored : current w s noted.1 name ≡ stamp w s fresh.info
  stored =
      current-same w s committed noted.1 name node_kept
      ∙ (unfold commit in (write_record_lem w s acc fresh st refl).1.stored)

  -- The object of a new node, and the record that another object of it loads.
  pub record Created (o : Option Node) (st' : s.State) : Type 0 where
    pub made : (n : Node) × ((o ≡ some n) × (n.info.graph_versions ≡ version committed ∷ []))
    pub unseen : (current w s st' name).graph_versions ≡ []

  -- On a storage that takes every record, `create` of a node that has no record gives an object that
  -- has the version of the graph; but this version is written with the metadata of the node only, so
  -- that another object, which loads the record of the node, has no version of the graph.
  pub create_lem : Created (create w s version name st).0 (create w s version name st).1
  create_lem = rw create-new (record {
    made = (noted.0, (refl, noted_versions));
    unseen =
        ap (λ (i : NodeInfo). i.graph_versions) stored
        ∙ (unfold stamp init_default_nodeinfo in refl);
  })
    where
      noted_versions : noted.0.info.graph_versions ≡ version committed ∷ []
      noted_versions =
          unfold add_graph_version init_info add_graph_version_info has_version_from commit
            write_record init_default_nodeinfo stamp in
          refl

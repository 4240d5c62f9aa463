-- ===== src/Api/Thrown.antt =====
-- What the operations of the write API throw.
use rangexx.Base.{ap, ◌++◌, ℕ, refl, false, Option, none, some, ◌∷◌, Str, arith}
use rangexx.Base.Results.{Result, ok, err, Kind}
use rangexx.Node.Info.{NodeType}
use rangexx.Graph.Interface.{NodeIface}
use rangexx.Api.Action.{◌>>=◌, lift, or_raise, scope}
use rangexx.Api.Backend.{Which, primary, Backend}
use rangexx.Api.Requests.{Client}
use rangexx.Api.Write.Envs
use rangexx.Api.Write.Clusters
use rangexx.Api.Write.Hosts
use rangexx.Api.Write.Keys
use rangexx.Api.Write.Dependencies
use rangexx.Api.Coded.{is_coded, Coded, CodedOrOut, Coded-CodedOrOut, ThrownSpec}
use rangexx.Api.Calls.{
  One, Two, Three, Four, Call, call_one, call_two, call_three, call_four, perform,
}
use rangexx.Search.Loop.{Outcome}
use rangexx.Api.Names.{hash}
use rangexx.Api.Lookup.{get_node}
use rangexx.Api.Picks.{GetNodeSpec, get_node_lem}
use rangexx.Api.Write.Steps.{
  expect, create_typed, create_missing, add_dependency, remove_both, submit,
}

-- The client that carries out its calls itself, as the learner does.
abbrev pub local : Client → Client
local c = record c { use_stored = false }

module _ {S V : Type 0} (b : Backend S V) (c : Client) (fuel : ℕ) where
  create_typed_lem :
      (w : Which) (name : Str) (type : NodeType) (s : S) → Coded (create_typed b w name type s).0
  unfolding create_typed
  create_typed_lem w name type s = ground arith

  expect_lem :
      (w : Which) (n : V) (type : NodeType) (name : Str) (s : S)
      → Coded (expect b w n type name s).0
  unfolding expect
  expect_lem w n type name s = ground arith

  create_missing_lem :
      (w : Which) (name : Str) (type : NodeType) (o : Option V) (s : S)
      → Coded (create_missing b w name type o s).0
  unfolding create_missing
  create_missing_lem w name type o s = ground (arith, create_typed_lem w name type s)

  add_dependency_lem :
      (name : Str) (type : NodeType) (s : S) → Coded (add_dependency b name type s).0
  unfolding add_dependency
  add_dependency_lem name type s = ground arith

  remove_env_from_lem :
      (w : Which) (name : Str) (s : S) → Coded (Envs.remove_env_from b (local c) w name s).0
  unfolding Envs.remove_env_from
  remove_env_from_lem w name s = grind (arith, expect_lem)

  expect_cluster_lem :
      (env : V) (name : Str) (o : Option V) (s : S)
      → Coded (Envs.expect_cluster b (local c) env name o s).0
  unfolding Envs.expect_cluster
  expect_cluster_lem env name o s = ground arith

  expect_if_lem :
      (o : Option V) (type : NodeType) (name : Str) (s : S)
      → Coded (Clusters.expect_if b (local c) o type name s).0
  unfolding Clusters.expect_if
  expect_if_lem none type name s = tt
  expect_if_lem (some n) type name s = expect_lem primary n type name s

  remove_both_lem : (n : V) (s : S) → Coded (remove_both b n s).0
  unfolding remove_both
  remove_both_lem n s = ground arith

  remove_both-CodedOrOut : (n : V) (s : S) → CodedOrOut (remove_both b n s).0
  remove_both-CodedOrOut n s = Coded-CodedOrOut (remove_both b n s).0 (remove_both_lem n s)

  expect_own_lem :
      (env_name hostname : Str) (o : Option V) (s : S)
      → Coded (Hosts.expect_own b (local c) fuel env_name hostname o s).0
  unfolding Hosts.expect_own
  expect_own_lem env_name hostname o s = ground arith

  add_host_to_lem :
      (w : Which) (hostname : Str) (s : S)
      → Coded (Hosts.add_host_to b (local c) fuel w hostname s).0
  unfolding Hosts.add_host_to
  add_host_to_lem w hostname s = grind (arith, create_typed_lem)

  judged_lem :
      (env_name : Str) (node : NodeIface V) (o : Outcome V) (s : S)
      → CodedOrOut (Hosts.judged b (local c) fuel env_name node o s).0
  unfolding Hosts.judged
  judged_lem env_name node o s = ground arith

  expect_inside_lem :
      (env_name : Str) (n : V) (s : S)
      → CodedOrOut (Hosts.expect_inside b (local c) fuel env_name n s).0
  unfolding Hosts.expect_inside
  expect_inside_lem env_name n s = grind (arith, judged_lem)

  find_in_lem :
      (env_name node_name : Str) (s : S) → Coded (Keys.find_in b (local c) env_name node_name s).0
  unfolding Keys.find_in
  find_in_lem env_name node_name s =
      by_result (get_node (b.graph primary s) env_name node_name)
        (get_node_lem (b.graph primary s) env_name node_name)
    where
      by_result :
          (r : Result (Option V))
          → GetNodeSpec (b.graph primary s) env_name node_name r
          → Coded
              ((lift {S = S} r >>= λ o.
                  or_raise o Kind.node_not_found (env_name ++ hash ∷ node_name))
                s).0
      by_result (ok none) h = refl
      by_result (ok (some v)) h = tt
      by_result (err e) h = ap is_coded h.0

  create_env_lem : (x : Str) (id : ℕ) (s : S) → Coded (Envs.create_env b (local c) x id s).0
  unfolding Envs.create_env submit scope
  create_env_lem x id s = grind (arith, create_typed_lem)

  remove_env_lem : (x : Str) (id : ℕ) (s : S) → Coded (Envs.remove_env b (local c) x id s).0
  unfolding Envs.remove_env submit scope
  remove_env_lem x id s = grind (arith, remove_env_from_lem)

  add_cluster_to_env_lem :
      (x y : Str) (id : ℕ) (s : S) → Coded (Envs.add_cluster_to_env b (local c) x y id s).0
  unfolding Envs.add_cluster_to_env submit scope
  add_cluster_to_env_lem x y id s =
      grind (arith, expect_lem, expect_cluster_lem, create_missing_lem, add_dependency_lem)

  remove_cluster_from_env_lem :
      (x y : Str) (id : ℕ) (s : S) → Coded (Envs.remove_cluster_from_env b (local c) x y id s).0
  unfolding Envs.remove_cluster_from_env submit scope
  remove_cluster_from_env_lem x y id s = grind (arith, expect_lem)

  add_cluster_to_cluster_lem :
      (x y z : Str) (id : ℕ) (s : S)
      → Coded (Clusters.add_cluster_to_cluster b (local c) x y z id s).0
  unfolding Clusters.add_cluster_to_cluster submit scope
  add_cluster_to_cluster_lem x y z id s =
      grind (arith, expect_lem, expect_if_lem, create_missing_lem, add_dependency_lem)

  remove_cluster_from_cluster_lem :
      (x y z : Str) (id : ℕ) (s : S)
      → Coded (Clusters.remove_cluster_from_cluster b (local c) x y z id s).0
  unfolding Clusters.remove_cluster_from_cluster submit scope
  remove_cluster_from_cluster_lem x y z id s = grind (arith, expect_lem)

  remove_cluster_lem :
      (x y : Str) (id : ℕ) (s : S) → Coded (Clusters.remove_cluster b (local c) x y id s).0
  unfolding Clusters.remove_cluster submit scope
  remove_cluster_lem x y id s = grind (arith, expect_lem, remove_both_lem)

  add_host_to_cluster_lem :
      (x y z : Str) (id : ℕ) (s : S)
      → Coded (Hosts.add_host_to_cluster b (local c) fuel x y z id s).0
  unfolding Hosts.add_host_to_cluster submit scope
  add_host_to_cluster_lem x y z id s =
      grind
        (arith, expect_lem, expect_if_lem, expect_own_lem, create_missing_lem, add_dependency_lem)

  remove_host_from_cluster_lem :
      (x y z : Str) (id : ℕ) (s : S)
      → Coded (Hosts.remove_host_from_cluster b (local c) fuel x y z id s).0
  unfolding Hosts.remove_host_from_cluster submit scope
  remove_host_from_cluster_lem x y z id s = grind (arith, expect_lem)

  add_host_lem : (x : Str) (id : ℕ) (s : S) → Coded (Hosts.add_host b (local c) fuel x id s).0
  unfolding Hosts.add_host submit scope
  add_host_lem x id s = grind (arith, add_host_to_lem)

  remove_host_lem :
      (x y : Str) (id : ℕ) (s : S) → CodedOrOut (Hosts.remove_host b (local c) fuel x y id s).0
  unfolding Hosts.remove_host submit scope
  remove_host_lem x y id s = grind (arith, expect_inside_lem, remove_both-CodedOrOut)

  add_node_key_value_lem :
      (w x y z : Str) (id : ℕ) (s : S) → Coded (Keys.add_node_key_value b (local c) w x y z id s).0
  unfolding Keys.add_node_key_value submit scope
  add_node_key_value_lem w x y z id s = ground (arith, find_in_lem w x (b.start_txn primary s))

  remove_node_key_value_lem :
      (w x y z : Str) (id : ℕ) (s : S)
      → Coded (Keys.remove_node_key_value b (local c) w x y z id s).0
  unfolding Keys.remove_node_key_value submit scope
  remove_node_key_value_lem w x y z id s = ground (arith, find_in_lem w x (b.start_txn primary s))

  remove_key_from_node_lem :
      (x y z : Str) (id : ℕ) (s : S) → Coded (Keys.remove_key_from_node b (local c) x y z id s).0
  unfolding Keys.remove_key_from_node submit scope
  remove_key_from_node_lem x y z id s = ground (arith, find_in_lem x y (b.start_txn primary s))

  add_node_ext_dependency_lem :
      (w x y z : Str) (id : ℕ) (s : S)
      → Coded (Dependencies.add_node_ext_dependency b (local c) w x y z id s).0
  unfolding Dependencies.add_node_ext_dependency submit scope
  add_node_ext_dependency_lem w x y z id s = grind (arith)

  remove_node_ext_dependency_lem :
      (w x y z : Str) (id : ℕ) (s : S)
      → Coded (Dependencies.remove_node_ext_dependency b (local c) w x y z id s).0
  unfolding Dependencies.remove_node_ext_dependency submit scope
  remove_node_ext_dependency_lem w x y z id s = grind (arith)

  -- Carried out here, whatever the state, every call but `remove_host` returns or throws an exception
  -- of one of the six classes that have a code of their own in an answer. `remove_host` does so too,
  -- or runs out of the fuel for its search.
  pub thrown_lem :
      (call : Call) (id : ℕ) (s : S) → ThrownSpec call (perform b (local c) fuel call id s).0
  thrown_lem (call_one One.create_env x) id s = create_env_lem x id s
  thrown_lem (call_one One.remove_env x) id s = remove_env_lem x id s
  thrown_lem (call_one One.add_host x) id s = add_host_lem x id s
  thrown_lem (call_two Two.add_cluster_to_env x y) id s = add_cluster_to_env_lem x y id s
  thrown_lem (call_two Two.remove_cluster_from_env x y) id s = remove_cluster_from_env_lem x y id s
  thrown_lem (call_two Two.remove_cluster x y) id s = remove_cluster_lem x y id s
  thrown_lem (call_two Two.remove_host x y) id s = remove_host_lem x y id s
  thrown_lem (call_three Three.add_cluster_to_cluster x y z) id s =
      add_cluster_to_cluster_lem x y z id s
  thrown_lem (call_three Three.remove_cluster_from_cluster x y z) id s =
      remove_cluster_from_cluster_lem x y z id s
  thrown_lem (call_three Three.add_host_to_cluster x y z) id s = add_host_to_cluster_lem x y z id s
  thrown_lem (call_three Three.remove_host_from_cluster x y z) id s =
      remove_host_from_cluster_lem x y z id s
  thrown_lem (call_three Three.remove_key_from_node x y z) id s =
      remove_key_from_node_lem x y z id s
  thrown_lem (call_four Four.add_node_key_value w x y z) id s = add_node_key_value_lem w x y z id s
  thrown_lem (call_four Four.remove_node_key_value w x y z) id s =
      remove_node_key_value_lem w x y z id s
  thrown_lem (call_four Four.add_node_ext_dependency w x y z) id s =
      add_node_ext_dependency_lem w x y z id s
  thrown_lem (call_four Four.remove_node_ext_dependency w x y z) id s =
      remove_node_ext_dependency_lem w x y z id s

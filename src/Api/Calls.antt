-- ===== src/Api/Calls.antt =====
-- librange/core/write_api.cpp: the calls that a request can name, and the table of their functions.
use rangexx.Base.{ℕ, Bool, List, [], ◌∷◌, Str, codes}
use rangexx.Base.Results.{incorrect_number_of_arguments}
use rangexx.Api.Action.{Action, raise}
use rangexx.Api.Backend.{Backend}
use rangexx.Api.Requests.{Client}
use rangexx.Api.Write.Envs
use rangexx.Api.Write.Clusters
use rangexx.Api.Write.Hosts
use rangexx.Api.Write.Keys
use rangexx.Api.Write.Dependencies

-- The operations with one to four arguments.
pub data One : Type 0 where
  create_env remove_env add_host : One

pub data Two : Type 0 where
  add_cluster_to_env remove_cluster_from_env remove_cluster remove_host : Two

pub data Three : Type 0 where
  add_cluster_to_cluster remove_cluster_from_cluster add_host_to_cluster remove_host_from_cluster
        remove_key_from_node :
      Three

pub data Four : Type 0 where
  add_node_key_value remove_node_key_value add_node_ext_dependency remove_node_ext_dependency : Four

pub data Call : Type 0 where
  call_one : One → Str → Call
  call_two : Two → Str → Str → Call
  call_three : Three → Str → Str → Str → Call
  call_four : Four → Str → Str → Str → Str → Call

abbrev pub name_one : One → Str
name_one One.create_env = codes "create_env"
name_one One.remove_env = codes "remove_env"
name_one One.add_host = codes "add_host"

abbrev pub name_two : Two → Str
name_two Two.add_cluster_to_env = codes "add_cluster_to_env"
name_two Two.remove_cluster_from_env = codes "remove_cluster_from_env"
name_two Two.remove_cluster = codes "remove_cluster"
name_two Two.remove_host = codes "remove_host"

abbrev pub name_three : Three → Str
name_three Three.add_cluster_to_cluster = codes "add_cluster_to_cluster"
name_three Three.remove_cluster_from_cluster = codes "remove_cluster_from_cluster"
name_three Three.add_host_to_cluster = codes "add_host_to_cluster"
name_three Three.remove_host_from_cluster = codes "remove_host_from_cluster"
name_three Three.remove_key_from_node = codes "remove_key_from_node"

abbrev pub name_four : Four → Str
name_four Four.add_node_key_value = codes "add_node_key_value"
name_four Four.remove_node_key_value = codes "remove_node_key_value"
name_four Four.add_node_ext_dependency = codes "add_node_ext_dependency"
name_four Four.remove_node_ext_dependency = codes "remove_node_ext_dependency"

abbrev pub method_of : Call → Str
method_of (call_one f a) = name_one f
method_of (call_two f a b) = name_two f
method_of (call_three f a b c) = name_three f
method_of (call_four f a b c d) = name_four f

abbrev pub args_of : Call → List Str
args_of (call_one f a) = a ∷ []
args_of (call_two f a b) = a ∷ b ∷ []
args_of (call_three f a b c) = a ∷ b ∷ c ∷ []
args_of (call_four f a b c d) = a ∷ b ∷ c ∷ d ∷ []

-- A function of the table: it takes the arguments as they come with a request.
abbrev pub Handler : Type 0 → Type 0
Handler S = List Str → ℕ → Action S Bool

module _ {S : Type 0} where
  abbrev wrong_number : Action S Bool
  wrong_number = raise incorrect_number_of_arguments (codes "incorrect # of arguments")

  unfoldable pub symtable_entry1 : (Str → ℕ → Action S Bool) → Handler S
  symtable_entry1 f (a ∷ []) id = f a id
  symtable_entry1 f _ id = wrong_number

  unfoldable pub symtable_entry2 : (Str → Str → ℕ → Action S Bool) → Handler S
  symtable_entry2 f (a ∷ b ∷ []) id = f a b id
  symtable_entry2 f _ id = wrong_number

  unfoldable pub symtable_entry3 : (Str → Str → Str → ℕ → Action S Bool) → Handler S
  symtable_entry3 f (a ∷ b ∷ c ∷ []) id = f a b c id
  symtable_entry3 f _ id = wrong_number

  unfoldable pub symtable_entry4 : (Str → Str → Str → Str → ℕ → Action S Bool) → Handler S
  symtable_entry4 f (a ∷ b ∷ c ∷ d ∷ []) id = f a b c d id
  symtable_entry4 f _ id = wrong_number

module _ {S V : Type 0} (b : Backend S V) (c : Client) (fuel : ℕ) where
  abbrev pub do_one : One → Str → ℕ → Action S Bool
  do_one One.create_env = Envs.create_env b c
  do_one One.remove_env = Envs.remove_env b c
  do_one One.add_host = Hosts.add_host b c fuel

  abbrev pub do_two : Two → Str → Str → ℕ → Action S Bool
  do_two Two.add_cluster_to_env = Envs.add_cluster_to_env b c
  do_two Two.remove_cluster_from_env = Envs.remove_cluster_from_env b c
  do_two Two.remove_cluster = Clusters.remove_cluster b c
  do_two Two.remove_host = Hosts.remove_host b c fuel

  abbrev pub do_three : Three → Str → Str → Str → ℕ → Action S Bool
  do_three Three.add_cluster_to_cluster = Clusters.add_cluster_to_cluster b c
  do_three Three.remove_cluster_from_cluster = Clusters.remove_cluster_from_cluster b c
  do_three Three.add_host_to_cluster = Hosts.add_host_to_cluster b c fuel
  do_three Three.remove_host_from_cluster = Hosts.remove_host_from_cluster b c fuel
  do_three Three.remove_key_from_node = Keys.remove_key_from_node b c

  abbrev pub do_four : Four → Str → Str → Str → Str → ℕ → Action S Bool
  do_four Four.add_node_key_value = Keys.add_node_key_value b c
  do_four Four.remove_node_key_value = Keys.remove_node_key_value b c
  do_four Four.add_node_ext_dependency = Dependencies.add_node_ext_dependency b c
  do_four Four.remove_node_ext_dependency = Dependencies.remove_node_ext_dependency b c

  -- The function called directly.
  abbrev pub perform : Call → ℕ → Action S Bool
  perform (call_one f x) = do_one f x
  perform (call_two f x y) = do_two f x y
  perform (call_three f x y z) = do_three f x y z
  perform (call_four f w x y z) = do_four f w x y z

  unfoldable pub write_api_symtable : List (Str × Handler S)
  unfolding symtable_entry1 symtable_entry2 symtable_entry3 symtable_entry4
  write_api_symtable =
      (codes "create_env", symtable_entry1 (do_one One.create_env))
      ∷ (codes "remove_env", symtable_entry1 (do_one One.remove_env))
      ∷ (codes "add_cluster_to_env", symtable_entry2 (do_two Two.add_cluster_to_env))
      ∷ (codes "remove_cluster_from_env", symtable_entry2 (do_two Two.remove_cluster_from_env))
      ∷ (codes "add_cluster_to_cluster", symtable_entry3 (do_three Three.add_cluster_to_cluster))
      ∷ (
        codes "remove_cluster_from_cluster",
        symtable_entry3 (do_three Three.remove_cluster_from_cluster),
      )
      ∷ (codes "remove_cluster", symtable_entry2 (do_two Two.remove_cluster))
      ∷ (codes "add_host_to_cluster", symtable_entry3 (do_three Three.add_host_to_cluster))
      ∷ (
        codes "remove_host_from_cluster",
        symtable_entry3 (do_three Three.remove_host_from_cluster),
      )
      ∷ (codes "add_host", symtable_entry1 (do_one One.add_host))
      ∷ (codes "remove_host", symtable_entry2 (do_two Two.remove_host))
      ∷ (codes "add_node_key_value", symtable_entry4 (do_four Four.add_node_key_value))
      ∷ (codes "remove_node_key_value", symtable_entry4 (do_four Four.remove_node_key_value))
      ∷ (codes "remove_key_from_node", symtable_entry3 (do_three Three.remove_key_from_node))
      ∷ (codes "add_node_ext_dependency", symtable_entry4 (do_four Four.add_node_ext_dependency))
      ∷ (
        codes "remove_node_ext_dependency",
        symtable_entry4 (do_four Four.remove_node_ext_dependency),
      )
      ∷ []

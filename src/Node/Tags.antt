-- ===== src/Node/Tags.antt =====
-- librange/db/pbuff_node.cpp: the tags of a node, read at a version, set and deleted in memory.
use rangexx.Base.{
  ℕ, Bool, false, Option, none, some, List, [], ◌∷◌, Str, str_eq, if◌then◌else◌, ltb, ◌==◌,
}
use rangexx.Node.Versions.{next_version, has_version, add_unique_new_version}
use rangexx.Node.Info.{TagValue, VersionMap, KeyValue, NodeInfo}
use rangexx.Node.Edit.{carry, remove_last}

-- The inner loop of `get_map_value`: the value is pushed once for each time that its versions have
-- the wanted one, and the loop ends at the first older version.
unfoldable pub push_value : ℕ → Str → List ℕ → List Str → List Str
push_value cmp s [] rest = rest
push_value cmp s (v ∷ vs) rest =
    let later = push_value cmp s vs rest in
    if cmp == v then s ∷ later else if ltb v cmp then rest else later

unfoldable pub get_map_value : ℕ → List TagValue → List Str
unfolding push_value
get_map_value cmp [] = []
get_map_value cmp (x ∷ xs) = push_value cmp x.content x.versions (get_map_value cmp xs)

-- The loop over the `versionmap` of a key. It does not stop at an entry that fits, so the last of
-- them is the one that stays in the table.
unfoldable pub map_entry :
    ℕ → List TagValue → List VersionMap → Option (List Str) → Option (List Str)
map_entry cmp values [] found = found
map_entry cmp values (m ∷ ms) found =
    map_entry cmp values ms
      (if m.list_version == cmp then some (get_map_value m.key_version values) else found)

-- What the loop of `tags` over the versions of one key puts into the table, if anything. (The loop
-- goes on after the version that fits, to an older one, where it ends.)
unfoldable pub key_values : ℕ → KeyValue → Option (List Str)
unfolding map_entry
key_values cmp k =
    if has_version cmp k.versions then map_entry cmp k.values k.versionmap none else none

-- `std::unordered_map<std::string, std::vector<std::string>>`; its order is not specified, and no
-- statement depends on the order here.
abbrev pub TagTable : Type 0
TagTable = List (Str × List Str)

unfoldable pub put : Str → List Str → TagTable → TagTable
put k vs [] = (k, vs) ∷ []
put k vs ((j, ws) ∷ t) = if str_eq k j then (k, vs) ∷ t else (j, ws) ∷ put k vs t

unfoldable pub find : Str → TagTable → Option (List Str)
find k [] = none
find k ((j, ws) ∷ t) = let rest = find k t in if str_eq k j then some ws else rest

unfoldable pub put_entry : Str → Option (List Str) → TagTable → TagTable
unfolding put
put_entry k none t = t
put_entry k (some vs) t = put k vs t

-- The loop of `tags` over the keys.
unfoldable pub fill_table : ℕ → List KeyValue → TagTable → TagTable
unfolding put_entry key_values
fill_table cmp [] t = t
fill_table cmp (k ∷ ks) t = fill_table cmp ks (put_entry k.key (key_values cmp k) t)

unfoldable pub tags_at : ℕ → NodeInfo → TagTable
unfolding fill_table
tags_at cmp i = fill_table cmp i.tags []

-- The first part of `update_tag`: the key, found or made, is at the new version of the record and
-- at the next version of its own.
unfoldable pub touch_key : Str → ℕ → List KeyValue → List KeyValue
touch_key key new [] =
    record {
      key = key;
      key_version = next_version 0;
      values = [];
      versions = new ∷ [];
      versionmap = [];
    }
    ∷ []
touch_key key new (k ∷ ks) =
    let rest = touch_key key new ks in
    if str_eq key k.key
    then record k { versions = new ∷ k.versions; key_version = next_version k.key_version } ∷ ks
    else k ∷ rest

-- One round of the last loop of `update_tag`: `find_value`, or a new value, at the key's version.
unfoldable pub put_value : ℕ → Str → List TagValue → List TagValue
put_value ver s [] = record { content = s; versions = add_unique_new_version ver [] } ∷ []
put_value ver s (x ∷ xs) =
    let rest = put_value ver s xs in
    if str_eq s x.content
    then record x { versions = add_unique_new_version ver x.versions } ∷ xs
    else x ∷ rest

unfoldable pub put_values : ℕ → List Str → List TagValue → List TagValue
unfolding put_value
put_values ver [] xs = xs
put_values ver (s ∷ ss) xs = put_values ver ss (put_value ver s xs)

-- The last loop of `update_tag` works on the key that the first part found or made.
unfoldable pub fill_key : Str → List Str → List KeyValue → List KeyValue
unfolding put_values
fill_key key ss [] = []
fill_key key ss (k ∷ ks) =
    let rest = fill_key key ss ks in
    if str_eq key k.key
    then record k { values = put_values k.key_version ss k.values } ∷ ks
    else k ∷ rest

unfoldable pub update_tag_info : Str → List Str → NodeInfo → NodeInfo
unfolding touch_key carry fill_key
update_tag_info key ss i =
    let cmp = i.list_version in
    let new = next_version cmp in
    let j = carry (record i { tags = touch_key key new i.tags }) cmp new in
    record j { tags = fill_key key ss j.tags }

-- The loop of `delete_tag`: the first key with that name has the current version.
unfoldable pub can_delete : Str → ℕ → List KeyValue → Bool
can_delete key cmp [] = false
can_delete key cmp (k ∷ ks) =
    let rest = can_delete key cmp ks in
    if str_eq key k.key then has_version cmp k.versions else rest

unfoldable pub drop_key_version : Str → List KeyValue → List KeyValue
drop_key_version key [] = []
drop_key_version key (k ∷ ks) =
    let rest = drop_key_version key ks in
    if str_eq key k.key then record k { versions = remove_last k.versions } ∷ ks else k ∷ rest

unfoldable pub delete_tag_info : Str → NodeInfo → Option NodeInfo
unfolding can_delete carry drop_key_version
delete_tag_info key i =
    let cmp = i.list_version in
    let j = carry i cmp (next_version cmp) in
    if can_delete key cmp i.tags
    then some (record j { tags = drop_key_version key j.tags })
    else none

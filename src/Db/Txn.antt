-- ===== src/Db/Txn.antt =====
-- librange/db/berkeley_dbcxx_txn.cpp and berkeley_dbcxx_db.cpp: a transaction keeps the changes by
-- their keys and brings them to the disk when the last reference to it goes.
use rangexx.Base.{
  ℕ, ◌+◌, ◌%◌, ◌^◌, Bool, true, Option, none, some, List, [], ◌∷◌, ◌++◌, Str, codes, str_eq, ltb,
  if◌then◌else◌, length,
}
use rangexx.Node.Storage.{RecordType}
use rangexx.Db.Keys.{key_name, get_type_from_keyname, unprefix}
use rangexx.Db.Change.{Change, Item, Changed, ChangeList, ListWire, Disk}

-- `pending_changes_`, a hash table: no statement depends on the order of its entries.
abbrev pub Pending : Type 0
Pending = List (Str × Change)

unfoldable pub find_change : Str → Pending → Option Change
find_change key [] = none
find_change key ((k, c) ∷ ps) =
    let rest = find_change key ps in if str_eq key k then some c else rest

unfoldable pub set_change : Str → Change → Pending → Pending
set_change key change [] = (key, change) ∷ []
set_change key change ((k, c) ∷ ps) =
    let rest = set_change key change ps in
    if str_eq key k then (key, change) ∷ ps else (k, c) ∷ rest

unfoldable pub add_change : Change → Pending → Pending
unfolding set_change key_name
add_change c ps = set_change (key_name c.type c.key) c ps

-- The items of the list of changes: the nodes among the changes.
unfoldable pub changed_items : Pending → List Item
unfolding key_name
changed_items [] = []
changed_items ((k, c) ∷ ps) = elim c.type [
  | RecordType.node ↦
      record { key = key_name c.type c.key; version = c.object_version } ∷ changed_items ps
  | _ ↦ changed_items ps
]

-- The key of the list of changes.
abbrev pub changelist_key : Str
changelist_key = key_name RecordType.graph_meta (codes "changelist")

module _ (w : ListWire) (d : Disk) where
  pub record Db : Type 0 where
    pub disk : d.State
    pub txn : Option Pending

  -- `get_record`: the open transaction first. The empty text of a change counts as found.
  unfoldable pub get_key : Str → Db → Str
  unfolding find_change
  get_key fullkey db = elim db.txn [
    | none ↦ d.get fullkey db.disk
    | some ps ↦ elim (find_change fullkey ps) [ none ↦ d.get fullkey db.disk | some c ↦ c.text ]
  ]

  unfoldable pub get_record : RecordType → Str → Db → Str
  unfolding get_key key_name
  get_record t name db = get_key (key_name t name) db

  unfoldable pub commit_record : Change → d.State → d.State
  unfolding key_name
  commit_record c disk = d.put (key_name c.type c.key) c.text disk

  abbrev pub write_text : Change → Str → d.State → d.State
  write_text c [] disk = disk
  write_text c (b ∷ text) disk = commit_record c disk

  -- The loop of `commit`, and that of `flush`: an empty text is not written.
  unfoldable pub commit_all : Pending → d.State → d.State
  unfolding commit_record
  commit_all [] disk = disk
  commit_all ((k, c) ∷ ps) disk = commit_all ps (write_text c c.text disk)

  abbrev pub parse_list : Str → Option ChangeList
  parse_list [] = some (record { current_version = 0; change = [] })
  parse_list (b ∷ buf) = w.parse (b ∷ buf)

  -- `none` where it throws.
  unfoldable pub read_changelist : Db → Option ChangeList
  unfolding get_key
  read_changelist db = parse_list (get_key changelist_key db)

  unfoldable pub add_graph_changelist : ChangeList → d.State → d.State
  add_graph_changelist changes disk =
      d.put changelist_key
        (w.serialize (record changes { current_version = (changes.current_version + 1) % 2 ^ 64 }))
        disk

  abbrev pub list_changes : List Item → ℕ × ℕ → ChangeList → d.State → d.State
  list_changes [] now changes disk = disk
  list_changes (i ∷ items) now changes disk =
      add_graph_changelist
        (record changes {
          change = changes.change ++ record { timestamp = now; items = i ∷ items } ∷ [];
        })
        disk

  -- The disk after `commit`, given the list of changes. If that cannot be read, nothing is written.
  unfoldable pub commit : Pending → ℕ × ℕ → Option ChangeList → d.State → d.State
  unfolding changed_items commit_all
  commit [] now read disk = disk
  commit (p ∷ ps) now none disk = disk
  commit (p ∷ ps) now (some changes) disk =
      list_changes (changed_items (p ∷ ps)) now changes (commit_all (p ∷ ps) disk)

  -- The destructor of a transaction that is not left by an exception; an exception of `commit` ends
  -- here. `now` is what `gettimeofday` says.
  unfoldable pub end_txn : ℕ × ℕ → Db → Db
  unfolding read_changelist commit
  end_txn now db = elim db.txn [
    | none ↦ db
    | some ps ↦ record db {
      disk = commit ps now (read_changelist (record db { txn = none })) db.disk;
      txn = none;
    }
  ]

  unfoldable pub start_txn : Db → Db
  start_txn db = elim db.txn [ none ↦ record db { txn = some [] } | some ps ↦ db ]

  -- With an open transaction it takes the change, else one is opened for this change alone.
  unfoldable pub write_record : ℕ × ℕ → Change → Db → Bool × Db
  unfolding add_change end_txn
  write_record now c db = elim db.txn [
    | none ↦ (true, end_txn now (record db { txn = some (add_change c []) }))
    | some ps ↦ (true, record db { txn = some (add_change c ps) })
  ]

  unfoldable pub abort : Db → Db
  abort db = elim db.txn [ none ↦ db | some ps ↦ record db { txn = some [] } ]

  -- It keeps the changes as pending.
  unfoldable pub flush : Db → Db
  unfolding commit_all
  flush db = elim db.txn [ none ↦ db | some ps ↦ record db { disk = commit_all ps db.disk } ]

  unfoldable pub version : Db → Option ℕ
  unfolding read_changelist
  version db = elim (read_changelist db) [
    | none ↦ none
    | some changes ↦ some (elim db.txn [
      | none ↦ changes.current_version
      | some ps ↦
          if ltb 0 (length ps)
          then (changes.current_version + 1) % 2 ^ 64
          else changes.current_version
    ])
  ]

-- `get_change_history`: for each change the types, names and versions of its nodes.
unfoldable pub history_items : List Item → List (ℕ × (Str × ℕ))
unfolding get_type_from_keyname unprefix
history_items [] = []
history_items (i ∷ items) =
    (get_type_from_keyname i.key, (unprefix i.key, i.version)) ∷ history_items items

unfoldable pub get_change_history : List Changed → List (List (ℕ × (Str × ℕ)))
unfolding history_items
get_change_history [] = []
get_change_history (c ∷ cs) = history_items c.items ∷ get_change_history cs

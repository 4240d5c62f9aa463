-- ===== src/Db/Commit.antt =====
-- What a reader of the database sees when a record is written and when a transaction ends.
use rangexx.Base.{
  ℕ, ◌+◌, ◌%◌, ◌^◌, ◌≡◌, ◌≢◌, refl, sym, ◌∙◌, ap, none, some, List, [], ◌∷◌, ◌++◌, Str, arith,
}
use rangexx.Db.Change.{Item, ChangeList, ListWire, Disk}
use rangexx.Db.Txn.{
  Pending, find_change, changed_items, changelist_key, Db, get_key, commit_all, read_changelist,
  add_graph_changelist, list_changes, parse_list, commit, end_txn,
}
use rangexx.Db.Pending.{GoodPending, text_or, get-commit_all}

-- The list of changes when these nodes have been changed.
abbrev pub listed : List Item → ℕ × ℕ → ChangeList → ChangeList
listed [] now changes = changes
listed (i ∷ items) now changes = record {
  current_version = (changes.current_version + 1) % 2 ^ 64;
  change = changes.change ++ record { timestamp = now; items = i ∷ items } ∷ [];
}

module _ (w : ListWire) (d : Disk) where
  abbrev pub closed : d.State → Db w d
  closed disk = record { disk = disk; txn = none }

  list_changes-other :
      (x : Str) (items : List Item) (now : ℕ × ℕ) (changes : ChangeList) (disk : d.State)
      → x ≢ changelist_key
      → d.get x (list_changes w d items now changes disk) ≡ d.get x disk
  unfolding add_graph_changelist
  list_changes-other x [] now changes disk h = refl
  list_changes-other x (i ∷ items) now changes disk h =
      d.get-put_other changelist_key x (w.serialize (listed (i ∷ items) now changes)) disk h

  parse_list_some : (text : Str) → text ≢ [] → parse_list w d text ≡ w.parse text
  parse_list_some [] h = absurd (h refl)
  parse_list_some (b ∷ text) h = refl

  read-serialize :
      (disk : d.State) (changes : ChangeList)
      → d.get changelist_key disk ≡ w.serialize changes
      → read_changelist w d (closed disk) ≡ some changes
  unfolding read_changelist get_key
  read-serialize disk changes h =
      ap (parse_list w d) h
      ∙ parse_list_some (w.serialize changes) (w.serialize_some changes)
      ∙ w.parse-serialize changes

  read_same :
      (disk disk' : d.State)
      → d.get changelist_key disk' ≡ d.get changelist_key disk
      → read_changelist w d (closed disk') ≡ read_changelist w d (closed disk)
  unfolding read_changelist get_key
  read_same disk disk' h = ap (parse_list w d) h

  read-list_changes :
      (items : List Item) (now : ℕ × ℕ) (changes : ChangeList) (disk : d.State)
      → read_changelist w d (closed disk) ≡ some changes
      → read_changelist w d (closed (list_changes w d items now changes disk))
        ≡ some (listed items now changes)
  read-list_changes [] now changes disk h = h
  read-list_changes (i ∷ items) now changes disk h =
      read-serialize (list_changes w d (i ∷ items) now changes disk)
        (listed (i ∷ items) now changes)
        (unfold add_graph_changelist in
          d.get-put changelist_key (w.serialize (listed (i ∷ items) now changes)) disk)

  pub get_key-open :
      (x : Str) (disk : d.State) (ps : Pending)
      → get_key w d x (record { disk = disk; txn = some ps })
        ≡ text_or (find_change x ps) (d.get x disk)
  unfolding get_key
  get_key-open x disk ps = ground arith

  get-commit :
      (x : Str) (ps : Pending) (now : ℕ × ℕ) (changes : ChangeList) (disk : d.State)
      → GoodPending ps
      → x ≢ changelist_key
      → d.get x (commit w d ps now (some changes) disk) ≡ text_or (find_change x ps) (d.get x disk)
  unfolding commit
  get-commit x [] now changes disk g h = unfold find_change in refl
  get-commit x (p ∷ ps) now changes disk g h =
      list_changes-other x (changed_items (p ∷ ps)) now changes (commit_all w d (p ∷ ps) disk) h
      ∙ get-commit_all w d x (p ∷ ps) disk g

  read-commit :
      (ps : Pending) (now : ℕ × ℕ) (changes : ChangeList) (disk : d.State)
      → GoodPending ps
      → find_change changelist_key ps ≡ none
      → read_changelist w d (closed disk) ≡ some changes
      → read_changelist w d (closed (commit w d ps now (some changes) disk))
        ≡ some (listed (changed_items ps) now changes)
  unfolding commit
  read-commit [] now changes disk g n h = unfold changed_items in h
  read-commit (p ∷ ps) now changes disk g n h =
      read-list_changes (changed_items (p ∷ ps)) now changes (commit_all w d (p ∷ ps) disk) (
        read_same disk (commit_all w d (p ∷ ps) disk) (
          get-commit_all w d changelist_key (p ∷ ps) disk g
          ∙ ap (λ o. text_or o (d.get changelist_key disk)) n)
        ∙ h)

  -- The database after the end of a transaction.
  pub record Ended (ps : Pending) (now : ℕ × ℕ) (changes : ChangeList) (db db' : Db w d)
      : Type 0 where
    pub view : (x : Str) → x ≢ changelist_key → get_key w d x db' ≡ get_key w d x db
    pub list : read_changelist w d db' ≡ some (listed (changed_items ps) now changes)
    pub finished : db'.txn ≡ none

  module _ (now : ℕ × ℕ) (ps : Pending) (changes : ChangeList) (disk : d.State) (g : GoodPending ps)
      (n : find_change changelist_key ps ≡ none)
      (r : read_changelist w d (closed disk) ≡ some changes) where
    pub end_txn_lem :
        Ended ps now changes
          (record { disk = disk; txn = some ps })
          (end_txn w d now (record { disk = disk; txn = some ps }))
    unfolding end_txn
    end_txn_lem = rw r (record {
      view = λ x h.
          (unfold get_key in get-commit x ps now changes disk g h) ∙ sym (get_key-open x disk ps);
      list = read-commit ps now changes disk g n r;
      finished = refl;
    })

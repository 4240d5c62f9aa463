-- ===== src/Node/Stored.antt =====
-- What a change of a node leaves in the storage, and what another object of that name loads then.
use rangexx.Base.{
  Bool-apart, ℕ, ◌≡◌, ◌≢◌, refl, sym, ◌∙◌, ap, inr, Bool, true, false, Option, none, some, [], ◌∷◌,
  Str, ==_iff, arith,
}
use mathlib.Core.Path.{subst}
use rangexx.Node.Info.{NodeInfo}
use rangexx.Node.Storage.{RecordType, Wire, Storage}
use rangexx.Node.Object.{
  Node, newest, make_node, read_info, init_info, checksum, stamp, write_record, modify, is_valid,
}

abbrev is_node : RecordType → Bool
is_node RecordType.node = true
is_node _ = false

node_apart : RecordType.node ≢ RecordType.graph_meta
node_apart e = Bool-apart (ap is_node e)

module _ (w : Wire) (s : Storage) where
  -- The record that a new object of this name loads.
  abbrev pub current : s.State → Str → NodeInfo
  current st name = (init_info w s st (make_node name newest)).info

  -- The object has loaded, or will load, the record that is stored.
  abbrev pub Synced : s.State → Node → Type 0
  Synced st n = (init_info w s st n).info ≡ current st n.name

  -- The storage takes every record.
  abbrev pub Accepts : Type 0
  Accepts =
      (t : RecordType) (name : Str) (v : ℕ) (text : Str) (st : s.State)
      → (s.write_record t name v text st).0 ≡ true

  pub record Written (name : Str) (i : NodeInfo) (st : s.State) (n' : Node) (st' : s.State)
      : Type 0 where
    pub stored : current st' name ≡ stamp w s i
    pub others :
        (m : Str)
        → m ≢ name
        → s.get_record RecordType.node m st' ≡ s.get_record RecordType.node m st
    pub same_name : n'.name ≡ name
    pub synced : Synced st' n'
    pub valid : is_valid w s n' ≡ true

  abbrev pub ModifySpec : Option NodeInfo → Str → s.State → Bool × (Node × s.State) → Type 0
  ModifySpec none name st (ok, (n', st')) =
      (ok ≡ false) × ((st' ≡ st) × ((n'.name ≡ name) × Synced st n'))
  ModifySpec (some i) name st (ok, (n', st')) = (ok ≡ true) × Written name i st n' st'

  read_info_some : (text : Str) → text ≢ [] → read_info w s text ≡ w.parse text
  unfolding read_info
  read_info_some [] h = absurd (h refl)
  read_info_some (b ∷ text) h = refl

  read_info-serialize : (i : NodeInfo) → read_info w s (w.serialize i) ≡ some i
  read_info-serialize i = read_info_some (w.serialize i) (w.serialize_some i) ∙ w.parse-serialize i

  current-read :
      (st : s.State) (name : Str) (i : NodeInfo)
      → read_info w s (s.get_record RecordType.node name st) ≡ some i
      → current st name ≡ i
  unfolding init_info
  current-read st name i h = rw (current, h)

  pub init_info_done :
      (st : s.State) (n : Node) → n.info_initialized ≡ true → init_info w s st n ≡ n
  unfolding init_info
  init_info_done st n h = rw h

  init_info_initialized : (st : s.State) (n : Node) → (init_info w s st n).info_initialized ≡ true
  unfolding init_info
  init_info_initialized st n = ground arith

  init_info_name : (st : s.State) (n : Node) → (init_info w s st n).name ≡ n.name
  unfolding init_info
  init_info_name st n = ground arith

  pub init_info_same :
      (st st' : s.State) (n : Node)
      → s.get_record RecordType.node n.name st' ≡ s.get_record RecordType.node n.name st
      → init_info w s st' n ≡ init_info w s st n
  unfolding init_info
  init_info_same st st' n h = rw h

  pub Synced-same :
      (st st' : s.State) (n : Node)
      → s.get_record RecordType.node n.name st' ≡ s.get_record RecordType.node n.name st
      → Synced st n
      → Synced st' n
  Synced-same st st' n h p =
      ap (λ (m : Node). m.info) (init_info_same st st' n h)
      ∙ p
      ∙ sym (ap (λ (m : Node). m.info) (init_info_same st st' (make_node n.name newest) h))

  stamp_lem : (i : NodeInfo) → (stamp w s i).crc32 ≡ checksum w s (stamp w s i)
  unfolding stamp checksum
  stamp_lem i = refl

  pub current-same :
      (st st' : s.State) (name : Str)
      → s.get_record RecordType.node name st' ≡ s.get_record RecordType.node name st
      → current st' name ≡ current st name
  current-same st st' name h =
      ap (λ (m : Node). m.info) (init_info_same st st' (make_node name newest) h)

  pub write_record_lem :
      Accepts
      → (n : Node) (st : s.State) → n.info_initialized ≡ true
      → ModifySpec (some n.info) n.name st (write_record w s RecordType.node n st)
  unfolding write_record
  write_record_lem acc n st h =
      let i = stamp w s n.info in
      let text = w.serialize i in
      let st' = (s.write_record RecordType.node n.name i.list_version text st).1 in
      let stored : current st' n.name ≡ i = current-read st' n.name i (
        ap (read_info w s) (
          s.get-write RecordType.node n.name i.list_version text st
            (acc RecordType.node n.name i.list_version text st) node_apart (w.serialize_some i))
        ∙ read_info-serialize i) in
      (
        acc RecordType.node n.name i.list_version text st,
        record {
          stored = stored;
          others = λ m d.
              s.get-write_other RecordType.node n.name i.list_version text st RecordType.node m
                (inr d) node_apart;
          same_name = refl;
          synced =
              ap (λ (m : Node). m.info) (init_info_done st' (record n { info = i }) h) ∙ sym stored;
          valid = unfold is_valid in (==_iff i.crc32 (checksum w s i)).1 (stamp_lem n.info);
        },
      )

  abbrev settle : Option NodeInfo → Node → s.State → Bool × (Node × s.State)
  settle none loaded st = (false, (loaded, st))
  settle (some i) loaded st = write_record w s RecordType.node (record loaded { info = i }) st

  modify-settle :
      (change : NodeInfo → Option NodeInfo) (n : Node) (st : s.State)
      → modify w s change n st ≡ settle (change (init_info w s st n).info) (init_info w s st n) st
  unfolding modify
  modify-settle change n st = ground arith

  Synced-init_info : (n : Node) (st : s.State) → Synced st n → Synced st (init_info w s st n)
  Synced-init_info n st p =
      ap (λ (m : Node). m.info)
        (init_info_done st (init_info w s st n) (init_info_initialized st n))
      ∙ p
      ∙ sym (ap (current st) (init_info_name st n))

  settle_lem :
      Accepts
      → (o : Option NodeInfo) (n : Node) (st : s.State) → Synced st n
      → ModifySpec o n.name st (settle o (init_info w s st n) st)
  settle_lem acc none n st p = (refl, (refl, (init_info_name st n, Synced-init_info n st p)))
  settle_lem acc (some i) n st p =
      let loaded = init_info w s st n in
      subst (λ name. ModifySpec (some i) name st (settle (some i) loaded st)) (init_info_name st n)
        (write_record_lem acc (record loaded { info = i }) st (init_info_initialized st n))

  -- On a storage that takes every record, and an object in step with it, a change that returns early
  -- leaves the storage alone and answers false. Any other answers true, and a new object of that name
  -- then loads the changed record with its checksum, which is valid; no other record is changed, and
  -- the object is in step with the storage again.
  pub modify_lem :
      Accepts
      → (change : NodeInfo → Option NodeInfo) (n : Node) (st : s.State) → Synced st n
      → ModifySpec (change (current st n.name)) n.name st (modify w s change n st)
  modify_lem acc change n st p =
      rw (modify-settle change n st, sym (ap change p))
        (settle_lem acc (change (init_info w s st n).info) n st p)

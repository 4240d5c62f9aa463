-- ===== src/Node/Storage.antt =====
-- What a node needs of the code around it: the serialiser that protoc generates from
-- librange/db/nodeinfo.proto, and the instance of a graph (GraphInstanceInterface,
-- librange/db/db_interface.h and librange/graph/graph_interface.h), which keeps the records.
use rangexx.Base.{ℕ, ◌≡◌, ◌≢◌, ◌⊎◌, Bool, true, Option, some, [], Str}
use rangexx.Node.Info.{NodeInfo}

pub data RecordType : Type 0 where
  node graph_meta node_meta reserved unknown : RecordType

-- `parse` is `ParseFromString` on a new message, and `none` if that is not initialised then. What
-- was written is read back, and is never empty, since all fields but one are required.
pub record Wire : Type 0 where
  pub serialize : NodeInfo → Str
  pub parse : Str → Option NodeInfo
  pub parse-serialize : (i : NodeInfo) → parse (serialize i) ≡ some i
  pub serialize_some : (i : NodeInfo) → serialize i ≢ []

-- `get_record` gives the empty string for a record that is not there. Each `write_record` runs in a
-- transaction, its own if there is no other; with it the list of changes, which is kept under
-- `GRAPH_META`, may change. An empty text is not written.
pub record Storage : Type 1 where
  pub State : Type 0
  pub get_record : RecordType → Str → State → Str
  pub write_record : RecordType → Str → ℕ → Str → State → Bool × State
  pub flush : State → State
  pub get-write :
      (t : RecordType) (name : Str) (v : ℕ) (text : Str) (st : State)
      → (write_record t name v text st).0 ≡ true
      → t ≢ RecordType.graph_meta
      → text ≢ []
      → get_record t name (write_record t name v text st).1 ≡ text
  pub get-write_other :
      (t : RecordType) (name : Str) (v : ℕ) (text : Str) (st : State) (u : RecordType) (m : Str)
      → (u ≢ t) ⊎ (m ≢ name)
      → u ≢ RecordType.graph_meta
      → get_record u m (write_record t name v text st).1 ≡ get_record u m st
  pub get-flush :
      (t : RecordType) (name : Str) (st : State)
      → get_record t name (flush st) ≡ get_record t name st

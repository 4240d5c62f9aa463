-- ===== src/Db/Change.antt =====
-- librange/db/changelist.proto, and what the transactions need of the code around them: the
-- serialiser that protoc generates, and the database handle.
use rangexx.Base.{ℕ, ◌≡◌, ◌≢◌, Option, some, List, [], Str}
use rangexx.Node.Storage.{RecordType}

-- `change_t`; `text` is its data.
pub record Change : Type 0 where
  pub type : RecordType
  pub key : Str
  pub object_version : ℕ
  pub text : Str

-- `ChangeList::Change::Item`
pub record Item : Type 0 where
  pub key : Str
  pub version : ℕ

-- `ChangeList::Change`; the time stamp is seconds and milliseconds.
pub record Changed : Type 0 where
  pub timestamp : ℕ × ℕ
  pub items : List Item

pub record ChangeList : Type 0 where
  pub current_version : ℕ
  pub change : List Changed

pub record ListWire : Type 0 where
  pub serialize : ChangeList → Str
  pub parse : Str → Option ChangeList
  pub parse-serialize : (c : ChangeList) → parse (serialize c) ≡ some c
  pub serialize_some : (c : ChangeList) → serialize c ≢ []

-- Berkeley DB as the code uses it: `get` gives the empty string where the handle says DB_NOTFOUND, and
-- an error of the handle, for which the code throws, does not occur.
pub record Disk : Type 1 where
  pub State : Type 0
  pub get : Str → State → Str
  pub put : Str → Str → State → State
  pub get-put : (key text : Str) (st : State) → get key (put key text st) ≡ text
  pub get-put_other :
      (key other text : Str) (st : State) → other ≢ key → get other (put key text st) ≡ get other st

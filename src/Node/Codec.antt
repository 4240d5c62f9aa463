-- ===== src/Node/Codec.antt =====
-- A serialiser of records and a storage in memory, for runs: what the real ones promise can be had.
use rangexx.Base.{
  ℕ, ◌≡◌, ◌≢◌, ◌⊎◌, inl, inr, refl, sym, ◌∙◌, ap, Bool, true, false, Option, none, some, List, [],
  ◌∷◌, ◌&&◌, Str, str_eq, str_eq_refl, str_eq_iff, if◌then◌else◌, ◌==◌, arith, Bool-apart,
}
use rangexx.Base.Codec.{Codec, number, pair, many, along}
use rangexx.Node.Info.{NodeType, NodeInfo, Adjacency, TagValue, VersionMap, KeyValue}
use rangexx.Node.Storage.{RecordType, Wire, Storage}

abbrev pub type_number : NodeType → ℕ
type_number NodeType.environment = 0
type_number NodeType.cluster = 1
type_number NodeType.host = 2
type_number NodeType.string = 3
type_number NodeType.reserved = 65536
type_number NodeType.unknown = 65537

abbrev pub number_type : ℕ → NodeType
number_type n =
    if n == 0
    then NodeType.environment
    else if n == 1
    then NodeType.cluster
    else if n == 2
    then NodeType.host
    else if n == 3
    then NodeType.string
    else if n == 65536
    then NodeType.reserved
    else NodeType.unknown

pub number_type-type_number : (t : NodeType) → number_type (type_number t) ≡ t
number_type-type_number NodeType.environment = refl
number_type-type_number NodeType.cluster = refl
number_type-type_number NodeType.host = refl
number_type-type_number NodeType.string = refl
number_type-type_number NodeType.reserved = refl
number_type-type_number NodeType.unknown = refl

abbrev node_types : Codec NodeType
node_types = along number number_type type_number number_type-type_number

abbrev adjacencies : Codec (List Adjacency)
adjacencies = many (
    along (pair (many number) (many number)) (λ x. record { id = x.0; versions = x.1 })
      (λ (e : Adjacency). (e.id, e.versions)) (λ e. refl))

abbrev tag_values : Codec (List TagValue)
tag_values = many (
    along (pair (many number) (many number)) (λ x. record { content = x.0; versions = x.1 })
      (λ (v : TagValue). (v.content, v.versions)) (λ v. refl))

abbrev version_maps : Codec (List VersionMap)
version_maps = many (
    along (pair number number) (λ x. record { list_version = x.0; key_version = x.1 })
      (λ (m : VersionMap). (m.list_version, m.key_version)) (λ m. refl))

abbrev keys : Codec (List KeyValue)
keys = many (
    along (pair (many number) (pair number (pair tag_values (pair (many number) version_maps))))
      (λ x. record {
        key = x.0;
        key_version = x.1.0;
        values = x.1.1.0;
        versions = x.1.1.1.0;
        versionmap = x.1.1.1.1;
      })
      (λ (k : KeyValue). (k.key, (k.key_version, (k.values, (k.versions, k.versionmap)))))
      (λ k. refl))

abbrev records : Codec NodeInfo
records =
    along
      (pair number (
        pair number
          (pair node_types (pair adjacencies (pair adjacencies (pair keys (many number)))))))
      (λ x. record {
        list_version = x.0;
        crc32 = x.1.0;
        node_type = x.1.1.0;
        forward = x.1.1.1.0;
        reverse = x.1.1.1.1.0;
        tags = x.1.1.1.1.1.0;
        graph_versions = x.1.1.1.1.1.1;
      })
      (λ (i : NodeInfo). (
        i.list_version,
        (i.crc32, (i.node_type, (i.forward, (i.reverse, (i.tags, i.graph_versions))))),
      ))
      (λ i. refl)

abbrev parsed : Option (NodeInfo × Str) → Option NodeInfo
parsed none = none
parsed (some (i, rest)) = some i

abbrev pub sample_wire : Wire
sample_wire = record {
  serialize = λ i. records.write i [];
  parse = λ text. parsed (records.read text);
  parse-serialize = λ i. ap parsed (records.read-write i []);
  serialize_some = λ i e. Bool-apart (sym (ap is_empty e));
}
  where
    is_empty : Str → Bool
    is_empty [] = true
    is_empty (b ∷ text) = false

abbrev pub record_number : RecordType → ℕ
record_number RecordType.node = 0
record_number RecordType.graph_meta = 1
record_number RecordType.node_meta = 2
record_number RecordType.reserved = 254
record_number RecordType.unknown = 255

abbrev number_record : ℕ → RecordType
number_record n =
    if n == 0
    then RecordType.node
    else if n == 1
    then RecordType.graph_meta
    else if n == 2
    then RecordType.node_meta
    else if n == 254
    then RecordType.reserved
    else RecordType.unknown

number_record-record_number : (t : RecordType) → number_record (record_number t) ≡ t
number_record-record_number RecordType.node = refl
number_record-record_number RecordType.graph_meta = refl
number_record-record_number RecordType.node_meta = refl
number_record-record_number RecordType.reserved = refl
number_record-record_number RecordType.unknown = refl

-- A storage that is the function which looks a record up.
abbrev pub Memory : Type 0
Memory = ℕ → Str → Str

abbrev pub store : ℕ → Str → Str → Memory → Memory
store t name text st u m = if (u == t) && str_eq m name then text else st u m

pub store_self : (t : ℕ) (name text : Str) (st : Memory) → store t name text st t name ≡ text
store_self t name text st = ground (arith, str_eq_refl name)

pub store_other :
    (t : RecordType) (name text : Str) (st : Memory) (u : RecordType) (m : Str)
    → (u ≢ t) ⊎ (m ≢ name)
    → store (record_number t) name text st (record_number u) m ≡ st (record_number u) m
store_other t name text st u m (inl h) = ground (arith, apart)
  where
    apart : record_number u ≢ record_number t
    apart e =
        h (sym (number_record-record_number u) ∙ ap number_record e ∙ number_record-record_number t)
store_other t name text st u m (inr h) = ground (arith, h, str_eq_iff m name)

abbrev pub memory : Storage
memory = record {
  State = Memory;
  get_record = λ t name st. st (record_number t) name;
  write_record = λ t name v text st. (true, store (record_number t) name text st);
  flush = λ st. st;
  get-write = λ t name v text st h a b. store_self (record_number t) name text st;
  get-write_other = λ t name v text st u m h a. store_other t name text st u m h;
  get-flush = λ t name st. refl;
}

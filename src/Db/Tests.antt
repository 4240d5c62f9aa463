-- ===== src/Db/Tests.antt =====
-- A database in memory, runs on it, and the theorems there.
use rangexx.Base.{
  ◌≡◌, ◌≢◌, refl, sym, ap, Bool, true, false, Option, none, some, [], ◌∷◌, Str, codes, str_eq,
  str_eq_refl, str_eq_iff, if◌then◌else◌, arith, Bool-apart,
}
use rangexx.Base.Codec.{Codec, number, pair, many, along}
use rangexx.Node.Storage.{RecordType}
use rangexx.Db.Keys.{key_name, type_code, key_prefix, decimal}
use rangexx.Db.Change.{Change, Item, Changed, ChangeList, ListWire, Disk}
use rangexx.Db.Txn.{Pending, add_change, changelist_key, get_key, read_changelist, write_record}
use rangexx.Db.Commit.{closed}
use rangexx.Db.Write.{Seen, Seen-write_record}

abbrev lists : Codec ChangeList
lists =
    along
      (pair number (
        many (
          along
            (pair (pair number number) (
              many (
                along (pair (many number) number) (λ x. record { key = x.0; version = x.1 })
                  (λ (i : Item). (i.key, i.version)) (λ i. refl))))
            (λ x. record { timestamp = x.0; items = x.1 }) (λ (c : Changed). (c.timestamp, c.items))
            (λ c. refl))))
      (λ x. record { current_version = x.0; change = x.1 })
      (λ (c : ChangeList). (c.current_version, c.change)) (λ c. refl)

abbrev parsed : Option (ChangeList × Str) → Option ChangeList
parsed none = none
parsed (some (c, rest)) = some c

abbrev is_empty : Str → Bool
is_empty [] = true
is_empty (b ∷ text) = false

abbrev sample_wire : ListWire
sample_wire = record {
  serialize = λ c. lists.write c [];
  parse = λ text. parsed (lists.read text);
  parse-serialize = λ c. ap parsed (lists.read-write c []);
  serialize_some = λ c e. Bool-apart (sym (ap is_empty e));
}

abbrev store : Str → Str → (Str → Str) → Str → Str
store key text st x = if str_eq x key then text else st x

store_self : (key text : Str) (st : Str → Str) → store key text st key ≡ text
store_self key text st = rw (str_eq_refl key)

store_other :
    (key other text : Str) (st : Str → Str) → other ≢ key → store key text st other ≡ st other
store_other key other text st h = ground (arith, h, str_eq_iff other key)

abbrev memory : Disk
memory = record {
  State = Str → Str;
  get = λ key st. st key;
  put = store;
  get-put = store_self;
  get-put_other = store_other;
}

abbrev empty_disk : Str → Str
empty_disk x = []

abbrev sample : Change
sample = record { type = RecordType.node; key = codes "h"; object_version = 4; text = codes "x" }

abbrev pending : Pending
pending = add_change sample []

sample_some : codes "x" ≢ []
sample_some e = Bool-apart (sym (ap is_empty e))

apart : changelist_key ≢ key_name RecordType.node (codes "h")
unfolding key_name key_prefix decimal type_code str_eq
apart e = Bool-apart (ap (str_eq changelist_key) e)

Seen-write_record_example :
    ((write_record sample_wire memory (9, 0) sample (closed sample_wire memory empty_disk)).0
      ≡ true)
    × Seen sample_wire memory sample
        (closed sample_wire memory empty_disk)
        (write_record sample_wire memory (9, 0) sample (closed sample_wire memory empty_disk)).1
Seen-write_record_example =
    Seen-write_record sample_wire memory (9, 0) sample (record { current_version = 0; change = [] })
      sample_some apart (closed sample_wire memory empty_disk)
      (unfold read_changelist get_key in refl)

-- ===== src/Db/Write.antt =====
-- `write_record` with and without an open transaction.
use rangexx.Base.{
  ℕ, ◌≡◌, ◌≢◌, refl, sym, ◌∙◌, ap, inl, inr, true, false, Option, none, some, [], Str, str_eq,
  str_eq_refl, str_eq_iff, Bool-cases,
}
use rangexx.Db.Keys.{key_name}
use rangexx.Db.Change.{Change, ChangeList, ListWire, Disk}
use rangexx.Db.Txn.{
  Pending, find_change, add_change, changelist_key, Db, get_key, read_changelist, write_record,
  end_txn,
}
use rangexx.Db.Pending.{text_or, find_change-set_change, add_change-GoodPending}
use rangexx.Db.Commit.{closed, end_txn_lem, get_key-open}

abbrev key_of : Change → Str
key_of c = key_name c.type c.key

str_eq-apart : (x y : Str) → x ≢ y → str_eq x y ≡ false
str_eq-apart x y h = elim (Bool-cases (str_eq x y)) [
  | inl e ↦ absurd (h ((str_eq_iff x y).0 e))
  | inr e ↦ e
]

find_change-add_change_self :
    (c : Change) (ps : Pending) → find_change (key_of c) (add_change c ps) ≡ some c
unfolding add_change
find_change-add_change_self c ps =
    find_change-set_change (key_of c) (key_of c) c ps ∙ (rw (str_eq_refl (key_of c)))

find_change-add_change_other :
    (x : Str) (c : Change) (ps : Pending)
    → x ≢ key_of c
    → find_change x (add_change c ps) ≡ find_change x ps
unfolding add_change
find_change-add_change_other x c ps h =
    find_change-set_change x (key_of c) c ps ∙ (rw (str_eq-apart x (key_of c) h))

module _ (w : ListWire) (d : Disk) where
  -- A reader sees the change, and for all other records but the list of changes what was seen before.
  pub record Seen (c : Change) (db db' : Db w d) : Type 0 where
    pub mine : get_key w d (key_name c.type c.key) db' ≡ c.text
    pub others :
        (x : Str)
        → x ≢ key_name c.type c.key
        → x ≢ changelist_key
        → get_key w d x db' ≡ get_key w d x db

  Seen-open :
      (c : Change) (disk : d.State) (ps : Pending)
      → Seen c
          (record { disk = disk; txn = some ps })
          (record { disk = disk; txn = some (add_change c ps) })
  Seen-open c disk ps = record {
    mine =
        get_key-open w d (key_of c) disk (add_change c ps)
        ∙ ap (λ o. text_or o (d.get (key_of c) disk)) (find_change-add_change_self c ps);
    others = λ x h k.
        get_key-open w d x disk (add_change c ps)
        ∙ ap (λ o. text_or o (d.get x disk)) (find_change-add_change_other x c ps h)
        ∙ sym (get_key-open w d x disk ps);
  }

  module _ (now : ℕ × ℕ) (c : Change) (changes : ChangeList) (filled : c.text ≢ [])
      (apart : changelist_key ≢ key_name c.type c.key) where
    write_closed :
        (disk : d.State)
        → read_changelist w d (closed w d disk) ≡ some changes
        → Seen c
            (closed w d disk)
            (end_txn w d now (record { disk = disk; txn = some (add_change c []) }))
    write_closed disk r =
        let s = Seen-open c disk [] in
        let e =
          end_txn_lem w d now (add_change c []) changes disk
            (add_change-GoodPending c [] filled (record { good = tt; distinct = tt }))
            (find_change-add_change_other changelist_key c [] apart ∙ (unfold find_change in refl))
            r in
        record {
          mine = e.view (key_of c) (λ q. apart (sym q)) ∙ s.mine;
          others = λ x h k. e.view x k ∙ s.others x h k ∙ (unfold get_key find_change in refl);
        }

    -- If the list of changes can be read, and the record is not this list and its text not empty,
    -- then `write_record` answers true, and with an open transaction or without one a reader sees the
    -- new text from then on, and what was there before of every other record but the list of changes.
    pub Seen-write_record :
        (db : Db w d)
        → read_changelist w d (closed w d db.disk) ≡ some changes
        → ((write_record w d now c db).0 ≡ true) × Seen c db (write_record w d now c db).1
    unfolding write_record
    Seen-write_record db r = by_txn db.txn db.disk r
      where
        by_txn :
            (t : Option Pending) (disk : d.State)
            → read_changelist w d (closed w d disk) ≡ some changes
            → ((write_record w d now c (record { disk = disk; txn = t })).0 ≡ true)
              × Seen c
                  (record { disk = disk; txn = t })
                  (write_record w d now c (record { disk = disk; txn = t })).1
        by_txn none disk r = (refl, write_closed disk r)
        by_txn (some ps) disk r = (refl, Seen-open c disk ps)

-- ===== src/Db/Pending.antt =====
-- The changes that a transaction keeps, and what they leave on the disk.
use rangexx.Base.{
  ◌≡◌, ◌≢◌, refl, sym, ◌∙◌, ap, inl, inr, true, false, Option, none, some, [], ◌∷◌, All, Str,
  str_eq, str_eq_iff, if◌then◌else◌, arith, Bool-cases, Bool-apart,
}
use rangexx.Db.Keys.{key_name}
use rangexx.Db.Change.{Change, ListWire, Disk}
use rangexx.Db.Txn.{
  Pending, find_change, set_change, add_change, commit_record, write_text, commit_all,
}

-- Every change stands under its own key and has a text, and no key stands twice.
pub record GoodChange (p : Str × Change) : Type 0 where
  pub named : p.0 ≡ key_name p.1.type p.1.key
  pub filled : p.1.text ≢ []

abbrev pub DistinctChanges : Pending → Type 0
DistinctChanges [] = Unit
DistinctChanges ((k, c) ∷ ps) = (find_change k ps ≡ none) × DistinctChanges ps

pub record GoodPending (ps : Pending) : Type 0 where
  pub good : All GoodChange ps
  pub distinct : DistinctChanges ps

pub find_change-set_change :
    (x k : Str) (c : Change) (ps : Pending)
    → find_change x (set_change k c ps) ≡ (if str_eq x k then some c else find_change x ps)
unfolding find_change set_change
find_change-set_change x k c [] = refl
find_change-set_change x k c ((j, e) ∷ ps) =
    ground (arith, str_eq_iff k j, str_eq_iff x j, str_eq_iff x k, find_change-set_change x k c ps)

set_change-DistinctChanges :
    (k : Str) (c : Change) (ps : Pending) → DistinctChanges ps → DistinctChanges (set_change k c ps)
unfolding set_change
set_change-DistinctChanges k c [] d = (unfold find_change in refl, tt)
set_change-DistinctChanges k c ((j, e) ∷ ps) d = elim (Bool-cases (str_eq k j)) [
  | inl h ↦ rw h (rw ((str_eq_iff k j).0 h) d.0, d.1)
  | inr h ↦ rw h (
    find_change-set_change j k c ps ∙ ground (arith, h, d.0, str_eq_iff k j, str_eq_iff j k),
    set_change-DistinctChanges k c ps d.1,
  )
]

set_change-All :
    (k : Str) (c : Change) (ps : Pending)
    → GoodChange (k, c)
    → All GoodChange ps
    → All GoodChange (set_change k c ps)
unfolding set_change
set_change-All k c [] g p = (g, tt)
set_change-All k c ((j, e) ∷ ps) g p = elim (Bool-cases (str_eq k j)) [
  | inl h ↦ rw h (g, p.1)
  | inr h ↦ rw h (p.0, set_change-All k c ps g p.1)
]

pub add_change-GoodPending :
    (c : Change) (ps : Pending) → c.text ≢ [] → GoodPending ps → GoodPending (add_change c ps)
unfolding add_change
add_change-GoodPending c ps h p = record {
  good = set_change-All (key_name c.type c.key) c ps (record { named = refl; filled = h }) p.good;
  distinct = set_change-DistinctChanges (key_name c.type c.key) c ps p.distinct;
}

-- The text of a change, if there is one, else the other text.
abbrev pub text_or : Option Change → Str → Str
text_or none text = text
text_or (some c) text = c.text

find_change_here :
    (x k : Str) (c : Change) (ps : Pending)
    → str_eq x k ≡ true
    → find_change x ((k, c) ∷ ps) ≡ some c
unfolding find_change
find_change_here x k c ps h = rw h

find_change_later :
    (x k : Str) (c : Change) (ps : Pending)
    → str_eq x k ≡ false
    → find_change x ((k, c) ∷ ps) ≡ find_change x ps
unfolding find_change
find_change_later x k c ps h = rw h

module _ (w : ListWire) (d : Disk) where
  write_text_some :
      (c : Change) (text : Str) (disk : d.State)
      → text ≢ []
      → write_text w d c text disk ≡ commit_record w d c disk
  write_text_some c [] disk h = absurd (h refl)
  write_text_some c (b ∷ text) disk h = refl

  module _ (x k : Str) (c : Change) (ps : Pending) (disk : d.State)
      (g : GoodPending ((k, c) ∷ ps)) where
    committed_here :
        str_eq x k ≡ true
        → text_or (find_change x ps) (d.get x (commit_record w d c disk))
          ≡ text_or (find_change x ((k, c) ∷ ps)) (d.get x disk)
    unfolding commit_record
    committed_here h =
        let e = (str_eq_iff x k).0 h in
        let key = key_name c.type c.key in
        ap (λ o. text_or o (d.get x (d.put key c.text disk)))
          (ap (λ y. find_change y ps) e ∙ g.distinct.0)
        ∙ ap (λ y. d.get y (d.put key c.text disk)) (e ∙ g.good.0.named)
        ∙ d.get-put key c.text disk
        ∙ sym (ap (λ o. text_or o (d.get x disk)) (find_change_here x k c ps h))

    committed_later :
        str_eq x k ≡ false
        → text_or (find_change x ps) (d.get x (commit_record w d c disk))
          ≡ text_or (find_change x ((k, c) ∷ ps)) (d.get x disk)
    unfolding commit_record
    committed_later h =
        ap (text_or (find_change x ps)) (
          d.get-put_other (key_name c.type c.key) x c.text disk
            (λ e. Bool-apart (sym ((str_eq_iff x k).1 (e ∙ sym g.good.0.named)) ∙ h)))
        ∙ sym (ap (λ o. text_or o (d.get x disk)) (find_change_later x k c ps h))

  commit_all-cons :
      (k : Str) (c : Change) (ps : Pending) (disk : d.State)
      → commit_all w d ((k, c) ∷ ps) disk ≡ commit_all w d ps (write_text w d c c.text disk)
  unfolding commit_all
  commit_all-cons k c ps disk = refl

  -- What the disk has after all changes have been written.
  pub get-commit_all :
      (x : Str) (ps : Pending) (disk : d.State)
      → GoodPending ps
      → d.get x (commit_all w d ps disk) ≡ text_or (find_change x ps) (d.get x disk)
  get-commit_all x [] disk g = unfold commit_all find_change in refl
  get-commit_all x ((k, c) ∷ ps) disk g =
      ap (d.get x) (
        commit_all-cons k c ps disk
        ∙ ap (commit_all w d ps) (write_text_some c c.text disk g.good.0.filled))
      ∙ get-commit_all x ps (commit_record w d c disk)
          (record { good = g.good.1; distinct = g.distinct.1 })
      ∙ elim (Bool-cases (str_eq x k)) [
        | inl h ↦ committed_here x k c ps disk g h
        | inr h ↦ committed_later x k c ps disk g h
      ]

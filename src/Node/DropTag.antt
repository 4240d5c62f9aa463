-- ===== src/Node/DropTag.antt =====
-- `delete_tag` on the keys of a record: one key is cut, all others are carried over.
use rangexx.Base.{
  ℕ, suc, ◌<◌, ◌≡◌, refl, inl, inr, true, false, Option, none, some, List, [], ◌∷◌, All, Str,
  str_eq, str_eq_iff, arith, if◌then◌else◌, Bool-cases, ◌∙◌, ap,
}
use mathlib.Core.Path.{ap₂}
use rangexx.Node.Versions.{has_version}
use rangexx.Node.Info.{KeyValue}
use rangexx.Node.Update.{update_keys}
use rangexx.Node.Tags.{key_values, can_delete, drop_key_version}
use rangexx.Node.Keys.{GoodKey, carry_key, carry_key-GoodKey, carry_key-past, key_values-current}
use rangexx.Node.KeyMoves.{carry_key-now, cut_key, cut_key-now, cut_key-past, cut_key-GoodKey}
use rangexx.Node.KeyList.{
  FreshKey, DistinctKeys, GoodKeys, tag_of, carry_keys, update_keys_lem, key-carry_key,
  tag_of-carry_now, tag_of-carry_past, FreshKey-carry, DistinctKeys-carry, All-carry,
}

-- The first key with the name is the one that is read, and it can be deleted if it is there.
pub can_delete_lem :
    (key : Str) (cmp : ℕ) (ks : List KeyValue)
    → All (GoodKey cmp) ks
    → can_delete key cmp ks ≡ elim (tag_of cmp key ks) [ none ↦ false | some vs ↦ true ]
unfolding can_delete
can_delete_lem key cmp [] g = refl
can_delete_lem key cmp (k ∷ ks) g = elim (Bool-cases (str_eq key k.key)) [
  | inl e ↦ rw e (ground (arith, key_values-current cmp k g.0))
  | inr e ↦ rw e (can_delete_lem key cmp ks g.1)
]

module _ (cmp : ℕ) (key : Str) where
  abbrev pub deleted : List KeyValue → List KeyValue
  deleted [] = []
  deleted (k ∷ ks) =
      if str_eq key k.key then cut_key cmp k ∷ carry_keys cmp ks else carry_key cmp k ∷ deleted ks

  drop_carried : (ks : List KeyValue) → drop_key_version key (carry_keys cmp ks) ≡ deleted ks
  unfolding drop_key_version
  drop_carried [] = refl
  drop_carried (k ∷ ks) = elim (Bool-cases (str_eq key k.key)) [
    | inl e ↦ rw (key-carry_key cmp k, e)
    | inr e ↦ rw (key-carry_key cmp k, e, drop_carried ks)
  ]

  pub deleted_lem :
      (ks : List KeyValue)
      → All (GoodKey cmp) ks
      → drop_key_version key (update_keys cmp (suc cmp) ks) ≡ deleted ks
  deleted_lem ks g = ap (drop_key_version key) (update_keys_lem cmp ks g) ∙ drop_carried ks

  -- The key can be deleted only where it has the current version.
  head_current :
      (k : KeyValue) (ks : List KeyValue)
      → can_delete key cmp (k ∷ ks) ≡ true
      → str_eq key k.key ≡ true
      → has_version cmp k.versions ≡ true
  unfolding can_delete
  head_current k ks h e = ground arith

  tail_current :
      (k : KeyValue) (ks : List KeyValue)
      → can_delete key cmp (k ∷ ks) ≡ true
      → str_eq key k.key ≡ false
      → can_delete key cmp ks ≡ true
  unfolding can_delete
  tail_current k ks h e = ground arith

  key-cut_key : (k : KeyValue) → (cut_key cmp k).key ≡ k.key
  key-cut_key k = key-carry_key cmp k

  tag_of-cut :
      (w : ℕ) (s : Str) (k : KeyValue) (ks : List KeyValue)
      → tag_of w s (cut_key cmp k ∷ ks)
        ≡ (if str_eq s k.key then key_values w (cut_key cmp k) else tag_of w s ks)
  tag_of-cut w s k ks =
      ap (λ (t : Str). if str_eq s t then key_values w (cut_key cmp k) else tag_of w s ks)
        (key-cut_key k)

  pub deleted-now_self :
      (ks : List KeyValue)
      → GoodKeys cmp ks
      → can_delete key cmp ks ≡ true
      → tag_of (suc cmp) key (deleted ks) ≡ none
  deleted-now_self [] g h = refl
  deleted-now_self (k ∷ ks) g h = elim (Bool-cases (str_eq key k.key)) [
    | inl e ↦ rw e (
        tag_of-cut (suc cmp) key k (carry_keys cmp ks)
        ∙ rw e (cut_key-now cmp k (head_current k ks h e) g.good.0))
    | inr e ↦
        rw (e, key-carry_key cmp k, e)
          (deleted-now_self ks (record { good = g.good.1; distinct = g.distinct.1 })
            (tail_current k ks h e))
  ]

  pub deleted-now_other :
      (s : Str) (ks : List KeyValue)
      → All (GoodKey cmp) ks
      → str_eq s key ≡ false
      → tag_of (suc cmp) s (deleted ks) ≡ tag_of cmp s ks
  deleted-now_other s [] g n = refl
  deleted-now_other s (k ∷ ks) g n = elim (Bool-cases (str_eq key k.key)) [
    | inl e ↦ rw (e, key-cut_key k, ← (str_eq_iff key k.key).0 e, n) (tag_of-carry_now cmp s ks g.1)
    | inr e ↦ rw (e, key-carry_key cmp k, carry_key-now cmp k g.0, deleted-now_other s ks g.1 n)
  ]

  pub deleted-past :
      (w : ℕ) (s : Str) (ks : List KeyValue)
      → All (GoodKey cmp) ks
      → can_delete key cmp ks ≡ true
      → w < suc cmp
      → tag_of w s (deleted ks) ≡ tag_of w s ks
  deleted-past w s [] g h lt = refl
  deleted-past w s (k ∷ ks) g h lt = elim (Bool-cases (str_eq key k.key)) [
    | inl e ↦ rw e (
        tag_of-cut w s k (carry_keys cmp ks)
        ∙ ap₂ (λ (a b : Option (List Str)). if str_eq s k.key then a else b)
            (cut_key-past cmp k (head_current k ks h e) w lt) (tag_of-carry_past cmp w s ks lt))
    | inr e ↦ rw (
      e,
      key-carry_key cmp k,
      carry_key-past cmp w k lt,
      deleted-past w s ks g.1 (tail_current k ks h e) lt,
    )
  ]

  FreshKey-deleted : (s : Str) (ks : List KeyValue) → FreshKey s ks → FreshKey s (deleted ks)
  FreshKey-deleted s [] f = tt
  FreshKey-deleted s (k ∷ ks) f = elim (Bool-cases (str_eq key k.key)) [
    | inl e ↦ rw e (rw (key-cut_key k) f.0, FreshKey-carry cmp s ks f.1)
    | inr e ↦ rw e (rw (key-carry_key cmp k) f.0, FreshKey-deleted s ks f.1)
  ]

  DistinctKeys-deleted : (ks : List KeyValue) → DistinctKeys ks → DistinctKeys (deleted ks)
  DistinctKeys-deleted [] d = tt
  DistinctKeys-deleted (k ∷ ks) d = elim (Bool-cases (str_eq key k.key)) [
    | inl e ↦
        rw e (rw (key-cut_key k) (FreshKey-carry cmp k.key ks d.0), DistinctKeys-carry cmp ks d.1)
    | inr e ↦
        rw e (rw (key-carry_key cmp k) (FreshKey-deleted k.key ks d.0), DistinctKeys-deleted ks d.1)
  ]

  All-deleted :
      (ks : List KeyValue)
      → All (GoodKey cmp) ks
      → can_delete key cmp ks ≡ true
      → All (GoodKey (suc cmp)) (deleted ks)
  All-deleted [] g h = tt
  All-deleted (k ∷ ks) g h = elim (Bool-cases (str_eq key k.key)) [
    | inl e ↦ rw e (cut_key-GoodKey cmp k (head_current k ks h e) g.0, All-carry cmp ks g.1)
    | inr e ↦ rw e (carry_key-GoodKey cmp k g.0, All-deleted ks g.1 (tail_current k ks h e))
  ]

  pub deleted-GoodKeys :
      (ks : List KeyValue)
      → GoodKeys cmp ks
      → can_delete key cmp ks ≡ true
      → GoodKeys (suc cmp) (deleted ks)
  deleted-GoodKeys ks g h = record {
    good = All-deleted ks g.good h;
    distinct = DistinctKeys-deleted ks g.distinct;
  }

-- ===== src/Node/KeyList.antt =====
-- The keys of a record: how `update_keys`, `touch_key` with `fill_key`, and `drop_key_version` act
-- on the whole list, and what `fill_table` reads from it.
use rangexx.Base.{
  ℕ, suc, ◌<◌, ◌≡◌, refl, inl, inr, true, false, Option, none, some, List, [], ◌∷◌, All, Str,
  str_eq, str_eq_iff, arith, if◌then◌else◌, Bool-cases, ◌∙◌,
}
use rangexx.Node.Versions.{update_unique_new_version_lem}
use rangexx.Node.Info.{KeyValue}
use rangexx.Node.Update.{update_keys}
use rangexx.Node.Tags.{key_values, put, find, put_entry, fill_table, TagTable}
use rangexx.Node.Keys.{GoodKey, maps_version-Below, carry_key, carry_key-GoodKey, carry_key-past}
use rangexx.Node.KeyMoves.{carry_key-now}

abbrev pub FreshKey : Str → List KeyValue → Type 0
FreshKey s ks = All (λ k. str_eq s k.key ≡ false) ks

abbrev pub DistinctKeys : List KeyValue → Type 0
DistinctKeys [] = Unit
DistinctKeys (k ∷ ks) = FreshKey k.key ks × DistinctKeys ks

pub record GoodKeys (lv : ℕ) (ks : List KeyValue) : Type 0 where
  pub good : All (GoodKey lv) ks
  pub distinct : DistinctKeys ks

-- What the version `w` has under a name.
abbrev pub tag_of : ℕ → Str → List KeyValue → Option (List Str)
tag_of w s [] = none
tag_of w s (k ∷ ks) = if str_eq s k.key then key_values w k else tag_of w s ks

abbrev or_else : Option (List Str) → Option (List Str) → Option (List Str)
or_else none o = o
or_else (some vs) o = some vs

pub tag_of-FreshKey : (w : ℕ) (s : Str) (ks : List KeyValue) → FreshKey s ks → tag_of w s ks ≡ none
tag_of-FreshKey w s [] f = refl
tag_of-FreshKey w s (k ∷ ks) f = rw f.0 (tag_of-FreshKey w s ks f.1)

pub FreshKey-eq :
    (s t : Str) (ks : List KeyValue) → str_eq s t ≡ true → FreshKey t ks → FreshKey s ks
FreshKey-eq s t [] h f = tt
FreshKey-eq s t (k ∷ ks) h f = (rw ((str_eq_iff s t).0 h) f.0, FreshKey-eq s t ks h f.1)

find-put :
    (s k : Str) (vs : List Str) (t : TagTable)
    → find s (put k vs t) ≡ (if str_eq s k then some vs else find s t)
unfolding find put
find-put s k vs [] = refl
find-put s k vs ((j, ws) ∷ t) =
    ground (arith, find-put s k vs t, str_eq_iff s k, str_eq_iff s j, str_eq_iff k j)

find-put_entry :
    (s k : Str) (o : Option (List Str)) (t : TagTable)
    → find s (put_entry k o t) ≡ (if str_eq s k then or_else o (find s t) else find s t)
unfolding put_entry
find-put_entry s k none t = ground arith
find-put_entry s k (some vs) t = find-put s k vs t

find-fill_table :
    (w : ℕ) (s : Str) (ks : List KeyValue) (t : TagTable)
    → DistinctKeys ks
    → find s (fill_table w ks t) ≡ or_else (tag_of w s ks) (find s t)
unfolding fill_table
find-fill_table w s [] t d = refl
find-fill_table w s (k ∷ ks) t d = elim (Bool-cases (str_eq s k.key)) [
  | inl e ↦
      find-fill_table w s ks (put_entry k.key (key_values w k) t) d.1
      ∙ rw (
        tag_of-FreshKey w s ks (FreshKey-eq s k.key ks e d.0),
        find-put_entry s k.key (key_values w k) t,
        e,
      )
  | inr e ↦
      find-fill_table w s ks (put_entry k.key (key_values w k) t) d.1
      ∙ rw (find-put_entry s k.key (key_values w k) t, e)
]

-- The table that `tags` returns has, under each name, what the version has of the key.
pub find-tags :
    (w : ℕ) (s : Str) (ks : List KeyValue)
    → DistinctKeys ks
    → find s (fill_table w ks []) ≡ tag_of w s ks
find-tags w s ks d = find-fill_table w s ks [] d ∙ (unfold find in or_else-none (tag_of w s ks))
  where
    or_else-none : (o : Option (List Str)) → or_else o none ≡ o
    or_else-none none = refl
    or_else-none (some vs) = refl

module _ (cmp : ℕ) where
  abbrev pub carry_keys : List KeyValue → List KeyValue
  carry_keys [] = []
  carry_keys (k ∷ ks) = carry_key cmp k ∷ carry_keys ks

  pub update_keys-cons :
      (k : KeyValue) (ks : List KeyValue)
      → GoodKey cmp k
      → update_keys cmp (suc cmp) (k ∷ ks) ≡ carry_key cmp k ∷ update_keys cmp (suc cmp) ks
  unfolding update_keys
  update_keys-cons k ks g = ground (
    arith,
    update_unique_new_version_lem cmp k.versions g.falls,
    maps_version-Below (suc cmp) k.key_version (suc cmp) k.versionmap (omega arith) g.map_falls,
  )

  pub update_keys_lem :
      (ks : List KeyValue) → All (GoodKey cmp) ks → update_keys cmp (suc cmp) ks ≡ carry_keys ks
  update_keys_lem [] g = unfold update_keys in refl
  update_keys_lem (k ∷ ks) g = rw (update_keys-cons k ks g.0, update_keys_lem ks g.1)

  pub key-carry_key : (k : KeyValue) → (carry_key cmp k).key ≡ k.key
  key-carry_key k = ground arith

  pub tag_of-carry_now :
      (s : Str) (ks : List KeyValue)
      → All (GoodKey cmp) ks
      → tag_of (suc cmp) s (carry_keys ks) ≡ tag_of cmp s ks
  tag_of-carry_now s [] g = refl
  tag_of-carry_now s (k ∷ ks) g =
      rw (key-carry_key k, carry_key-now cmp k g.0, tag_of-carry_now s ks g.1)

  pub tag_of-carry_past :
      (w : ℕ) (s : Str) (ks : List KeyValue)
      → w < suc cmp
      → tag_of w s (carry_keys ks) ≡ tag_of w s ks
  tag_of-carry_past w s [] h = refl
  tag_of-carry_past w s (k ∷ ks) h =
      rw (key-carry_key k, carry_key-past cmp w k h, tag_of-carry_past w s ks h)

  pub FreshKey-carry : (s : Str) (ks : List KeyValue) → FreshKey s ks → FreshKey s (carry_keys ks)
  FreshKey-carry s [] f = tt
  FreshKey-carry s (k ∷ ks) f = (rw (key-carry_key k) f.0, FreshKey-carry s ks f.1)

  pub DistinctKeys-carry : (ks : List KeyValue) → DistinctKeys ks → DistinctKeys (carry_keys ks)
  DistinctKeys-carry [] d = tt
  DistinctKeys-carry (k ∷ ks) d =
      (rw (key-carry_key k) (FreshKey-carry k.key ks d.0), DistinctKeys-carry ks d.1)

  pub All-carry :
      (ks : List KeyValue) → All (GoodKey cmp) ks → All (GoodKey (suc cmp)) (carry_keys ks)
  All-carry [] g = tt
  All-carry (k ∷ ks) g = (carry_key-GoodKey cmp k g.0, All-carry ks g.1)

  pub carry_keys-GoodKeys :
      (ks : List KeyValue) → GoodKeys cmp ks → GoodKeys (suc cmp) (carry_keys ks)
  carry_keys-GoodKeys ks g = record {
    good = All-carry ks g.good;
    distinct = DistinctKeys-carry ks g.distinct;
  }

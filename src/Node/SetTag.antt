-- ===== src/Node/SetTag.antt =====
-- `update_tag` on the keys of a record: `touch_key`, `update_keys` and `fill_key` together renew one
-- key and carry over all others.
use rangexx.Base.{
  ℕ, suc, ◌+◌, ◌^◌, ◌<◌, ◌≡◌, refl, inl, inr, true, false, some, List, [], ◌∷◌, All, Str, str_eq,
  str_eq_iff, str_eq_refl, elem, arith, if◌then◌else◌, Bool-cases,
}
use rangexx.Node.Versions.{next_version-eq, has_version, update_unique_new_version_self}
use rangexx.Node.Info.{KeyValue}
use rangexx.Node.Update.{maps_version, update_keys}
use rangexx.Node.Tags.{key_values, touch_key, fill_key}
use rangexx.Node.Keys.{GoodKey, maps_version-Below, carry_key, carry_key-GoodKey, carry_key-past}
use rangexx.Node.KeyMoves.{
  carry_key-now, renew_key, renew_key-GoodKey, renew_key-now, renew_key-past,
}
use rangexx.Node.KeyList.{
  FreshKey, DistinctKeys, GoodKeys, tag_of, carry_keys, update_keys-cons, update_keys_lem,
  key-carry_key, tag_of-carry_now, tag_of-carry_past, FreshKey-carry, DistinctKeys-carry, All-carry,
}

module _ (cmp : ℕ) (key : Str) (ss : List Str) where
  -- A key that is not there yet.
  abbrev new_key : KeyValue
  new_key = record { key = key; key_version = 0; values = []; versions = []; versionmap = [] }

  -- What `update_tag` makes of the keys in the end.
  abbrev pub renewed : List KeyValue → List KeyValue
  renewed [] = renew_key cmp ss new_key ∷ []
  renewed (k ∷ ks) =
      if str_eq key k.key
      then renew_key cmp ss k ∷ carry_keys cmp ks
      else carry_key cmp k ∷ renewed ks

  -- The key after the first part of `update_tag`, and after `update_tag_versions`.
  abbrev touched : KeyValue → KeyValue
  touched k = record k { versions = suc cmp ∷ k.versions; key_version = suc k.key_version }

  abbrev mapped : KeyValue → KeyValue
  mapped k = record (touched k) {
    versionmap = record { list_version = suc cmp; key_version = suc k.key_version } ∷ k.versionmap;
  }

  update_keys-touched :
      (k : KeyValue) (ks : List KeyValue)
      → maps_version (suc cmp) k.versionmap ≡ false
      → update_keys cmp (suc cmp) (touched k ∷ ks) ≡ mapped k ∷ update_keys cmp (suc cmp) ks
  unfolding update_keys
  update_keys-touched k ks h =
      ground (arith, update_unique_new_version_self cmp (suc cmp) k.versions)

  fill_key-mapped :
      (k : KeyValue) (ks : List KeyValue)
      → str_eq key k.key ≡ true
      → fill_key key ss (mapped k ∷ ks) ≡ renew_key cmp ss k ∷ ks
  unfolding fill_key
  fill_key-mapped k ks h = rw h

  touch_key-nil : touch_key key (suc cmp) [] ≡ touched new_key ∷ []
  unfolding touch_key
  touch_key-nil = rw (next_version-eq 0 (omega arith))

  touch_key-here :
      (k : KeyValue) (ks : List KeyValue)
      → str_eq key k.key ≡ true
      → k.key_version + 1 < 2 ^ 64
      → touch_key key (suc cmp) (k ∷ ks) ≡ touched k ∷ ks
  unfolding touch_key
  touch_key-here k ks e h = rw (e, next_version-eq k.key_version h)

  touch_key-there :
      (k : KeyValue) (ks : List KeyValue)
      → str_eq key k.key ≡ false
      → touch_key key (suc cmp) (k ∷ ks) ≡ k ∷ touch_key key (suc cmp) ks
  unfolding touch_key
  touch_key-there k ks e = rw e

  fill_key-there :
      (k : KeyValue) (ks : List KeyValue)
      → str_eq key k.key ≡ false
      → fill_key key ss (k ∷ ks) ≡ k ∷ fill_key key ss ks
  unfolding fill_key
  fill_key-there k ks e = rw e

  update_keys-nil : update_keys cmp (suc cmp) [] ≡ []
  unfolding update_keys
  update_keys-nil = refl

  unmapped : (k : KeyValue) → GoodKey cmp k → maps_version (suc cmp) k.versionmap ≡ false
  unmapped k g =
      maps_version-Below (suc cmp) k.key_version (suc cmp) k.versionmap (omega arith) g.map_falls

  pub renewed_lem :
      (ks : List KeyValue)
      → All (GoodKey cmp) ks
      → cmp + 1 < 2 ^ 64
      → fill_key key ss (update_keys cmp (suc cmp) (touch_key key (suc cmp) ks)) ≡ renewed ks
  renewed_lem [] g h = rw (
    touch_key-nil,
    update_keys-touched new_key [] (unfold maps_version in refl),
    update_keys-nil,
    fill_key-mapped new_key [] (str_eq_refl key),
  )
  renewed_lem (k ∷ ks) g h = elim (Bool-cases (str_eq key k.key)) [
    | inl e ↦ rw (
      touch_key-here k ks e (omega (arith, g.0.key_below)),
      update_keys-touched k ks (unmapped k g.0),
      update_keys_lem cmp ks g.1,
      fill_key-mapped k (carry_keys cmp ks) e,
      e,
    )
    | inr e ↦ rw (
      touch_key-there k ks e,
      update_keys-cons cmp k (touch_key key (suc cmp) ks) g.0,
      fill_key-there (carry_key cmp k) (update_keys cmp (suc cmp) (touch_key key (suc cmp) ks))
          (rw (key-carry_key cmp k) e),
      renewed_lem ks g.1 h,
      e,
    )
  ]

  new_key-GoodKey : GoodKey cmp new_key
  new_key-GoodKey = record {
    falls = tt;
    map_falls = tt;
    key_below = omega arith;
    values_fall = tt;
    is_current = λ h. unfold has_version in cc h;
  }

  -- In the new version the key has the values given, in some order and each of them once or more.
  pub renewed-now_self :
      (ks : List KeyValue)
      → All (GoodKey cmp) ks
      → (vs : List Str) × (tag_of (suc cmp) key (renewed ks) ≡ some vs)
        × ((s : Str) → elem s vs ≡ elem s ss)
  renewed-now_self [] g = rw (str_eq_refl key) (renew_key-now cmp ss new_key new_key-GoodKey)
  renewed-now_self (k ∷ ks) g = elim (Bool-cases (str_eq key k.key)) [
    | inl e ↦ rw (e, e) (renew_key-now cmp ss k g.0)
    | inr e ↦
        let (vs, now, same) = renewed-now_self ks g.1 in
        (vs, rw (e, key-carry_key cmp k, e) now, same)
  ]

  pub renewed-now_other :
      (s : Str) (ks : List KeyValue)
      → All (GoodKey cmp) ks
      → str_eq s key ≡ false
      → tag_of (suc cmp) s (renewed ks) ≡ tag_of cmp s ks
  renewed-now_other s [] g n = rw n
  renewed-now_other s (k ∷ ks) g n = elim (Bool-cases (str_eq key k.key)) [
    | inl e ↦ rw (e, ← (str_eq_iff key k.key).0 e, n) (tag_of-carry_now cmp s ks g.1)
    | inr e ↦ rw (e, key-carry_key cmp k, carry_key-now cmp k g.0, renewed-now_other s ks g.1 n)
  ]

  pub renewed-past :
      (w : ℕ) (s : Str) (ks : List KeyValue)
      → All (GoodKey cmp) ks
      → w < suc cmp
      → tag_of w s (renewed ks) ≡ tag_of w s ks
  renewed-past w s [] g h =
      rw (renew_key-past cmp w ss new_key new_key-GoodKey h)
        (unfold key_values has_version in ground arith)
  renewed-past w s (k ∷ ks) g h = elim (Bool-cases (str_eq key k.key)) [
    | inl e ↦ rw (e, renew_key-past cmp w ss k g.0 h, tag_of-carry_past cmp w s ks h)
    | inr e ↦ rw (e, key-carry_key cmp k, carry_key-past cmp w k h, renewed-past w s ks g.1 h)
  ]

  FreshKey-renewed :
      (s : Str) (ks : List KeyValue)
      → str_eq s key ≡ false
      → FreshKey s ks
      → FreshKey s (renewed ks)
  FreshKey-renewed s [] n f = (n, tt)
  FreshKey-renewed s (k ∷ ks) n f = elim (Bool-cases (str_eq key k.key)) [
    | inl e ↦ rw e (f.0, FreshKey-carry cmp s ks f.1)
    | inr e ↦ rw e (rw (key-carry_key cmp k) f.0, FreshKey-renewed s ks n f.1)
  ]

  DistinctKeys-renewed : (ks : List KeyValue) → DistinctKeys ks → DistinctKeys (renewed ks)
  DistinctKeys-renewed [] d = (tt, tt)
  DistinctKeys-renewed (k ∷ ks) d = elim (Bool-cases (str_eq key k.key)) [
    | inl e ↦ rw e (FreshKey-carry cmp k.key ks d.0, DistinctKeys-carry cmp ks d.1)
    | inr e ↦ rw e (
      rw (key-carry_key cmp k) (
          FreshKey-renewed k.key ks (ground (arith, e, str_eq_iff key k.key, str_eq_iff k.key key))
            d.0),
      DistinctKeys-renewed ks d.1,
    )
  ]

  All-renewed : (ks : List KeyValue) → All (GoodKey cmp) ks → All (GoodKey (suc cmp)) (renewed ks)
  All-renewed [] g = (renew_key-GoodKey cmp ss new_key new_key-GoodKey, tt)
  All-renewed (k ∷ ks) g = elim (Bool-cases (str_eq key k.key)) [
    | inl e ↦ rw e (renew_key-GoodKey cmp ss k g.0, All-carry cmp ks g.1)
    | inr e ↦ rw e (carry_key-GoodKey cmp k g.0, All-renewed ks g.1)
  ]

  pub renewed-GoodKeys : (ks : List KeyValue) → GoodKeys cmp ks → GoodKeys (suc cmp) (renewed ks)
  renewed-GoodKeys ks g = record {
    good = All-renewed ks g.good;
    distinct = DistinctKeys-renewed ks g.distinct;
  }

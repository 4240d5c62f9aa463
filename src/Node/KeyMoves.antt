-- ===== src/Node/KeyMoves.antt =====
-- One tag key, set and deleted: what each version of the record has for it then.
use rangexx.Base.{
  ℕ, suc, ◌<◌, ◌≡◌, refl, true, none, some, List, ◌∷◌, Str, elem, arith, sym, ◌∙◌, ap,
}
use mathlib.Core.Path.{subst}
use rangexx.Node.Versions.{
  has_version, has_version-Below, has_version-older, has_version_self, Below-mono,
}
use rangexx.Node.Info.{KeyValue}
use rangexx.Node.Edit.{remove_last}
use rangexx.Node.Tags.{get_map_value, key_values, put_values}
use rangexx.Node.Values.{ValuesBelow-mono, put_values-ValuesBelow, put_values-past, put_values-now}
use rangexx.Node.Keys.{
  GoodKey, MapBelow-mono, map_entry-older, map_entry-agree, carry_key, carry_key-GoodKey,
  key_values-current,
}

module _ (cmp : ℕ) where
  pub carry_key-now :
      (k : KeyValue) → GoodKey cmp k → key_values (suc cmp) (carry_key cmp k) ≡ key_values cmp k
  carry_key-now k g =
      key_values-current (suc cmp) (carry_key cmp k) (carry_key-GoodKey cmp k g)
      ∙ ground (
        arith,
        key_values-current cmp k g,
        has_version_self (suc cmp) k.versions,
        has_version-Below (suc cmp) (suc cmp) k.versions (omega arith) g.falls,
      )

  -- What `update_tag` makes of the key in the end.
  abbrev pub renew_key : List Str → KeyValue → KeyValue
  renew_key ss k = record k {
    key_version = suc k.key_version;
    values = put_values (suc k.key_version) ss k.values;
    versions = suc cmp ∷ k.versions;
    versionmap = record { list_version = suc cmp; key_version = suc k.key_version } ∷ k.versionmap;
  }

  pub renew_key-GoodKey :
      (ss : List Str) (k : KeyValue) → GoodKey cmp k → GoodKey (suc cmp) (renew_key ss k)
  renew_key-GoodKey ss k g = record {
    falls = (omega arith, g.falls);
    map_falls = (
      omega arith,
      omega arith,
      MapBelow-mono (suc cmp) (suc cmp) k.key_version (suc k.key_version) k.versionmap (omega arith)
          (omega arith) g.map_falls,
    );
    key_below = omega (arith, g.key_below);
    values_fall = put_values-ValuesBelow (suc k.key_version) ss k.values (
        ValuesBelow-mono (suc k.key_version) (suc (suc k.key_version)) k.values (omega arith)
          g.values_fall);
    is_current = λ h. (refl, refl);
  }

  -- The key has exactly the values given, and its past is what it was.
  pub renew_key-now :
      (ss : List Str) (k : KeyValue)
      → GoodKey cmp k
      → (vs : List Str) × (key_values (suc cmp) (renew_key ss k) ≡ some vs)
        × ((s : Str) → elem s vs ≡ elem s ss)
  renew_key-now ss k g = (
    get_map_value (suc k.key_version) (put_values (suc k.key_version) ss k.values),
    key_values-current (suc cmp) (renew_key ss k) (renew_key-GoodKey ss k g)
        ∙ ground (arith, has_version_self (suc cmp) k.versions),
    λ s. put_values-now (suc k.key_version) s ss k.values g.values_fall,
  )

  pub renew_key-past :
      (w : ℕ) (ss : List Str) (k : KeyValue)
      → GoodKey cmp k
      → w < suc cmp
      → key_values w (renew_key ss k) ≡ key_values w k
  unfolding key_values
  renew_key-past w ss k g h = rw (
    has_version-older w (suc cmp) k.versions h,
    map_entry-older w _ (record { list_version = suc cmp; key_version = suc k.key_version })
        k.versionmap h,
    map_entry-agree w (suc cmp) k.key_version (put_values (suc k.key_version) ss k.values) k.values
        k.versionmap none g.map_falls
        (λ v l.
          put_values-past (suc k.key_version) v ss k.values
            (ValuesBelow-mono (suc k.key_version) (suc (suc k.key_version)) k.values (omega arith)
              g.values_fall)
            (omega arith)),
  )

  -- What `delete_tag` makes of it.
  abbrev pub cut_key : KeyValue → KeyValue
  cut_key k = record (carry_key cmp k) { versions = remove_last (carry_key cmp k).versions }

  module _ (k : KeyValue) (c : has_version cmp k.versions ≡ true) where
    abbrev past_key : KeyValue
    past_key = record k {
      versionmap = record { list_version = suc cmp; key_version = k.key_version } ∷ k.versionmap;
    }

    cut_key-eq : cut_key k ≡ past_key
    cut_key-eq = rw c

    past_key-now : GoodKey cmp k → key_values (suc cmp) past_key ≡ none
    unfolding key_values
    past_key-now g = rw (has_version-Below (suc cmp) (suc cmp) k.versions (omega arith) g.falls)

    past_key-past : (w : ℕ) → w < suc cmp → key_values w past_key ≡ key_values w k
    unfolding key_values
    past_key-past w h = rw (
        map_entry-older w k.values (record { list_version = suc cmp; key_version = k.key_version })
          k.versionmap h)

    -- A deleted key is gone from the new version alone.
    pub cut_key-now : GoodKey cmp k → key_values (suc cmp) (cut_key k) ≡ none
    cut_key-now g = ap (key_values (suc cmp)) cut_key-eq ∙ past_key-now g

    pub cut_key-past : (w : ℕ) → w < suc cmp → key_values w (cut_key k) ≡ key_values w k
    cut_key-past w h = ap (key_values w) cut_key-eq ∙ past_key-past w h

    pub cut_key-GoodKey : GoodKey cmp k → GoodKey (suc cmp) (cut_key k)
    cut_key-GoodKey g = subst (GoodKey (suc cmp)) (sym cut_key-eq) (record {
      falls = Below-mono (suc cmp) (suc (suc cmp)) k.versions (omega arith) g.falls;
      map_falls = (omega arith, omega arith, g.map_falls);
      key_below = omega (arith, g.key_below);
      values_fall = g.values_fall;
      is_current = λ h. (refl, refl);
    })

-- ===== src/Node/Keys.antt =====
-- One tag key: what a version of the record has for it, carried over, set and deleted.
use rangexx.Base.{
  ℕ, suc, ◌≤◌, ◌<◌, ◌≡◌, refl, inl, inr, true, false, Option, none, some, List, [], ◌∷◌, Str, arith,
  if◌then◌else◌, Bool-cases, ◌∙◌, ap,
}
use rangexx.Node.Versions.{has_version, has_version-Below, has_version-older, Below, Below-mono}
use rangexx.Node.Info.{TagValue, VersionMap, KeyValue}
use rangexx.Node.Update.{maps_version}
use rangexx.Node.Tags.{get_map_value, map_entry, key_values}
use rangexx.Node.Values.{ValuesBelow}

-- The map of a key has one entry at most for a version of the record, none at `b` or above, and
-- none that leads to a later version of the key than `kv`.
abbrev pub MapBelow : ℕ → ℕ → List VersionMap → Type 0
MapBelow b kv [] = Unit
MapBelow b kv (m ∷ ms) = (m.list_version < b) × (m.key_version ≤ kv) × MapBelow m.list_version kv ms

-- The newest entry of the map leads from this version of the record to this version of the key.
abbrev pub MapHead : ℕ → ℕ → List VersionMap → Type 0
MapHead lv kv [] = ⊥
MapHead lv kv (m ∷ ms) = (m.list_version ≡ lv) × (m.key_version ≡ kv)

-- A key of a record at the version `lv`.
pub record GoodKey (lv : ℕ) (k : KeyValue) : Type 0 where
  pub falls : Below (suc lv) k.versions
  pub map_falls : MapBelow (suc lv) k.key_version k.versionmap
  pub key_below : k.key_version ≤ lv
  pub values_fall : ValuesBelow (suc k.key_version) k.values
  pub is_current : has_version lv k.versions ≡ true → MapHead lv k.key_version k.versionmap

pub MapBelow-mono :
    (b c kv kw : ℕ) (ms : List VersionMap) → b ≤ c → kv ≤ kw → MapBelow b kv ms → MapBelow c kw ms
MapBelow-mono b c kv kw [] h l p = tt
MapBelow-mono b c kv kw (m ∷ ms) h l p = (
  omega arith,
  omega arith,
  MapBelow-mono m.list_version m.list_version kv kw ms (omega arith) l p.2,
)

pub maps_version-Below :
    (b kv w : ℕ) (ms : List VersionMap) → b ≤ w → MapBelow b kv ms → maps_version w ms ≡ false
unfolding maps_version
maps_version-Below b kv w [] h p = refl
maps_version-Below b kv w (m ∷ ms) h p =
    ground (arith, maps_version-Below m.list_version kv w ms (omega arith) p.2)

map_entry-Below :
    (w b kv : ℕ) (xs : List TagValue) (ms : List VersionMap) (found : Option (List Str))
    → b ≤ w
    → MapBelow b kv ms
    → map_entry w xs ms found ≡ found
unfolding map_entry
map_entry-Below w b kv xs [] found h p = refl
map_entry-Below w b kv xs (m ∷ ms) found h p =
    ground (arith, map_entry-Below w m.list_version kv xs ms found (omega arith) p.2)

-- A newer entry is read at its own version, and nowhere else.
map_entry_self :
    (w kv : ℕ) (xs : List TagValue) (m : VersionMap) (ms : List VersionMap)
    → m.list_version ≡ w
    → MapBelow w kv ms
    → map_entry w xs (m ∷ ms) none ≡ some (get_map_value m.key_version xs)
unfolding map_entry
map_entry_self w kv xs m ms e p =
    ground
      (arith, map_entry-Below w w kv xs ms (some (get_map_value m.key_version xs)) (omega arith) p)

pub map_entry-older :
    (w : ℕ) (xs : List TagValue) (m : VersionMap) (ms : List VersionMap)
    → w < m.list_version
    → map_entry w xs (m ∷ ms) none ≡ map_entry w xs ms none
unfolding map_entry
map_entry-older w xs m ms h = ground arith

-- Two lists of values that agree at every version that the map leads to.
pub map_entry-agree :
    (w b kv : ℕ) (xs ys : List TagValue) (ms : List VersionMap) (found : Option (List Str))
    → MapBelow b kv ms
    → ((v : ℕ) → v ≤ kv → get_map_value v xs ≡ get_map_value v ys)
    → map_entry w xs ms found ≡ map_entry w ys ms found
unfolding map_entry
map_entry-agree w b kv xs ys [] found p h = refl
map_entry-agree w b kv xs ys (m ∷ ms) found p h =
    rw (h m.key_version p.1) (map_entry-agree w m.list_version kv xs ys ms _ p.2 h)

module _ (cmp : ℕ) where
  -- What one round of `update_tag_versions` makes of a key whose map lacks the new version.
  abbrev pub carry_key : KeyValue → KeyValue
  carry_key k =
      if has_version cmp k.versions
      then record k {
        versions = suc cmp ∷ k.versions;
        versionmap = record { list_version = suc cmp; key_version = k.key_version } ∷ k.versionmap;
      }
      else k

  pub carry_key-GoodKey : (k : KeyValue) → GoodKey cmp k → GoodKey (suc cmp) (carry_key k)
  carry_key-GoodKey k g = elim (Bool-cases (has_version cmp k.versions)) [
    | inl c ↦ rw c (record {
      falls = (omega arith, g.falls);
      map_falls = (omega arith, omega arith, g.map_falls);
      key_below = omega arith;
      values_fall = g.values_fall;
      is_current = λ h. (refl, refl);
    })
    | inr c ↦ rw c (record {
      falls = Below-mono (suc cmp) (suc (suc cmp)) k.versions (omega arith) g.falls;
      map_falls =
          MapBelow-mono (suc cmp) (suc (suc cmp)) k.key_version k.key_version k.versionmap
            (omega arith) (omega arith) g.map_falls;
      key_below = omega arith;
      values_fall = g.values_fall;
      is_current =
          λ h. cc (h, has_version-Below (suc cmp) (suc cmp) k.versions (omega arith) g.falls);
    })
  ]

  key_values-MapHead :
      (xs : List TagValue) (kv : ℕ) (ms : List VersionMap)
      → MapHead cmp kv ms
      → MapBelow (suc cmp) kv ms
      → map_entry cmp xs ms none ≡ some (get_map_value kv xs)
  key_values-MapHead xs kv [] h b = elim h [ ]
  key_values-MapHead xs kv (m ∷ ms) h b =
      map_entry_self cmp kv xs m ms h.0 (rw h.0 at b.2)
      ∙ ap (λ (v : ℕ). some (get_map_value v xs)) h.1

  -- At the current version a key has the values of its own current version.
  pub key_values-current :
      (k : KeyValue)
      → GoodKey cmp k
      → key_values cmp k
        ≡ (if has_version cmp k.versions then some (get_map_value k.key_version k.values) else none)
  unfolding key_values
  key_values-current k g = elim (Bool-cases (has_version cmp k.versions)) [
    | inl c ↦
        rw c (key_values-MapHead k.values k.key_version k.versionmap (g.is_current c) g.map_falls)
    | inr c ↦ rw c
  ]

  pub carry_key-past :
      (w : ℕ) (k : KeyValue) → w < suc cmp → key_values w (carry_key k) ≡ key_values w k
  unfolding key_values
  carry_key-past w k h = ground (
    arith,
    has_version-older w (suc cmp) k.versions,
    map_entry-older w k.values (record { list_version = suc cmp; key_version = k.key_version })
        k.versionmap,
  )

-- ===== src/Db/Keys.antt =====
-- librange/db/berkeley_dbcxx_db.cpp: the keys under which records are stored. A `record_type` is its
-- code, a uint8_t.
use rangexx.Base.{
  ℕ, zero, suc, ◌+◌, ◌*◌, ◌/◌, ◌%◌, ◌-◌, ◌≡◌, refl, ◌&&◌, [], ◌∷◌, ◌++◌, Str, ltb, leb, ◌==◌,
  if◌then◌else◌, length,
}
use rangexx.Node.Storage.{RecordType}

unfoldable pub type_code : RecordType → ℕ
type_code RecordType.node = 0
type_code RecordType.graph_meta = 1
type_code RecordType.node_meta = 2
type_code RecordType.reserved = 254
type_code RecordType.unknown = 255

-- What `<<` prints of a number below 1000.
unfoldable pub decimal : ℕ → Str
decimal n =
    if ltb n 10
    then (48 + n) ∷ []
    else if ltb n 100
    then (48 + n / 10) ∷ (48 + n % 10) ∷ []
    else (48 + n / 100) ∷ (48 + n / 10 % 10) ∷ (48 + n % 10) ∷ []

unfoldable pub key_prefix : ℕ → Str
unfolding decimal
key_prefix t = decimal t ++ 7 ∷ 48 ∷ 7 ∷ []

unfoldable pub key_name : RecordType → Str → Str
unfolding key_prefix type_code
key_name t name = key_prefix (type_code t) ++ name

-- What stands before the first '\a'.
unfoldable pub type_prefix : Str → Str
type_prefix [] = []
type_prefix (c ∷ s) = let rest = type_prefix s in if c == 7 then [] else c ∷ rest

-- `std::atoi` of a text that begins with neither a blank nor a sign.
unfoldable pub atoi : ℕ → Str → ℕ
atoi n [] = n
atoi n (c ∷ s) = let rest = atoi (10 * n + (c - 48)) s in if leb 48 c && leb c 57 then rest else n

unfoldable pub get_type_from_keyname : Str → ℕ
unfolding type_prefix atoi
get_type_from_keyname fullkey = elim (type_prefix fullkey) [
  | [] ↦ 255
  | c ∷ s ↦ atoi 0 (c ∷ s) % 256
]

abbrev pub substr : ℕ → Str → Str
substr zero s = s
substr (suc n) [] = []
substr (suc n) (c ∷ s) = substr n s

unfoldable pub unprefix : Str → Str
unfolding get_type_from_keyname key_prefix
unprefix fullkey = substr (length (key_prefix (get_type_from_keyname fullkey))) fullkey

-- The type and the name of a record are read back from its key.
pub key_name_lem :
    (t : RecordType) (name : Str)
    → (get_type_from_keyname (key_name t name) ≡ type_code t) × (unprefix (key_name t name) ≡ name)
unfolding get_type_from_keyname key_name unprefix key_prefix type_code type_prefix atoi decimal
key_name_lem RecordType.node name = (refl, refl)
key_name_lem RecordType.graph_meta name = (refl, refl)
key_name_lem RecordType.node_meta name = (refl, refl)
key_name_lem RecordType.reserved name = (refl, refl)
key_name_lem RecordType.unknown name = (refl, refl)

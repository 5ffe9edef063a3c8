-- ===== src/Json/Keys.antt =====
-- `objectKeys` of internal/engine/merge.go: each key of the map once, those of `Keys` first.
use homer_cli.Base.{
  String, ◌≡◌, refl, Bool, true, false, not, ◌&&◌, ◌||◌, Option, none, some, List, [], ◌∷◌, ◌++◌,
  arith, str_eq_iff, if◌then◌else◌, contains, contains-append, contains-sort_strings, sort_strings,
}
use homer_cli.Json.{Members, end, member, Object, value_at, member_keys}

unfoldable pub is_some {ℓ} : {A : Type ℓ} → Option A → Bool
is_some none = false
is_some (some a) = true

-- _, exists := object.M[key]
unfoldable pub has_key : String → Members → Bool
unfolding is_some
has_key k m = is_some (value_at k m)

-- The first loop; `acc` is both `seen` and `keys`, which hold the same texts.
unfoldable pub known_keys : List String → List String → Members → List String
unfolding has_key contains
known_keys acc [] m = acc
known_keys acc (k ∷ ks) m =
    known_keys (if has_key k m && not (contains k acc) then acc ++ k ∷ [] else acc) ks m

-- The second loop, over the map.
unfoldable pub extra_keys : List String → List String → List String
unfolding contains
extra_keys seen [] = []
extra_keys seen (k ∷ ks) =
    let rest = extra_keys seen ks in if contains k seen then rest else k ∷ rest

unfoldable pub object_keys : Object → List String
unfolding known_keys extra_keys member_keys sort_strings
object_keys o =
    let keys = known_keys [] o.keys o.members in
    keys ++ sort_strings (extra_keys keys (member_keys o.members))

contains-known_keys :
    (j : String) (acc ks : List String) (m : Members)
    → contains j (known_keys acc ks m) ≡ (contains j acc || contains j ks && has_key j m)
unfolding known_keys contains
contains-known_keys j acc [] m = ground arith
contains-known_keys j acc (k ∷ ks) m = ground (
  arith,
  contains-known_keys j (if has_key k m && not (contains k acc) then acc ++ k ∷ [] else acc) ks m,
  contains-append j acc (k ∷ []),
  str_eq_iff k j,
)

pub contains-extra_keys :
    (j : String) (seen ks : List String)
    → contains j (extra_keys seen ks) ≡ (contains j ks && not (contains j seen))
unfolding extra_keys contains
contains-extra_keys j seen [] = refl
contains-extra_keys j seen (k ∷ ks) = ground (arith, contains-extra_keys j seen ks, str_eq_iff k j)

pub contains-member_keys : (j : String) (m : Members) → contains j (member_keys m) ≡ has_key j m
unfolding contains member_keys has_key value_at
contains-member_keys j end = refl
contains-member_keys j (member k v m) = ground (arith, contains-member_keys j m)

-- The listed keys are the keys of the map, whatever the key order says.
pub contains-object_keys :
    (j : String) (o : Object) → contains j (object_keys o) ≡ has_key j o.members
unfolding object_keys
contains-object_keys j o =
    let keys = known_keys [] o.keys o.members in
    let extra = extra_keys keys (member_keys o.members) in
    ground (
      arith,
      contains-append j keys (sort_strings extra),
      contains-sort_strings j extra,
      contains-known_keys j [] o.keys o.members,
      contains-extra_keys j keys (member_keys o.members),
      contains-member_keys j o.members,
    )

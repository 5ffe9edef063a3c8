-- ===== src/Sync/Exclusion.antt =====
-- internal/sync/excludedkeys.go: top-level keys of an object that stay on their machine. `parse`, `serialize` and `serialize_file` stand for
-- `orderedjson.Parse`, `Serialize` and `SerializeFile`.
pub mod Snapshots
pub mod Planting
pub mod Restoring
pub mod Omission
pub mod Judgement
use homer_cli.Base.{
  String, Bool, false, not, ◌&&◌, ◌||◌, Option, none, some, List, [], ◌∷◌, str_eq, if◌then◌else◌,
  contains, includes,
}
use homer_cli.Json.{Value, text, array, object, Members, Object, value_at}
use homer_cli.Json.Keys.{has_key, object_keys}
use homer_cli.Json.Rebuild.{rebuilt, append_key}
use homer_cli.Json.Strip.{as_value}

abbrev pub required_placeholder : String
required_placeholder = "__REQUIRED__"

abbrev pub is_placeholder : Value → Bool
is_placeholder (text s) = str_eq s required_placeholder
is_placeholder v = false

-- The object with a placeholder at each excluded key that it has.
abbrev pub keep_placeholder : List String → String → Value → Option Value
keep_placeholder keys k v = some (if contains k keys then text required_placeholder else v)

unfoldable pub with_placeholders : List String → Object → Object
unfolding rebuilt contains
with_placeholders keys o = rebuilt (keep_placeholder keys) o

abbrev pub value_or : Value → Option Value → Value
value_or v none = v
value_or v (some w) = w

-- The first loop of `PlantExcludedKeys`
abbrev pub keep_local : Members → List String → String → Value → Option Value
keep_local own keys k v = some (if contains k keys then value_or v (value_at k own) else v)

-- `changed` after the first loop
unfoldable pub replaces_any : Members → List String → List String → Bool
unfolding contains has_key
replaces_any own keys [] = false
replaces_any own keys (k ∷ visited) =
    contains k keys && has_key k own || replaces_any own keys visited

-- The second loop, and whether it adds a key
unfoldable pub add_missing : Members → Members → List String → Object → Object
unfolding has_key value_at
add_missing merged own [] out = out
add_missing merged own (k ∷ keys) out =
    add_missing merged own keys
      (if has_key k merged then out else append_key k (value_at k own) out)

unfoldable pub adds_any : Members → Members → List String → Bool
unfolding has_key
adds_any merged own [] = false
adds_any merged own (k ∷ keys) = not (has_key k merged) && has_key k own || adds_any merged own keys

unfoldable pub plant_in_object : Object → Members → List String → Object
unfolding replaces_any adds_any add_missing rebuilt object_keys contains value_at
plant_in_object merged own keys =
    if replaces_any own keys (object_keys merged) || adds_any merged.members own keys
    then add_missing merged.members own keys (rebuilt (keep_local own keys) merged)
    else merged

unfoldable pub plant_excluded_keys : Value → Value → List String → Value
unfolding plant_in_object
plant_excluded_keys (object ks m) (object ls own) (k ∷ keys) =
    as_value (plant_in_object (record { keys = ks; members = m }) own (k ∷ keys))
plant_excluded_keys merged local keys = merged

-- The loop of `DropUnresolvedPlaceholders`
abbrev pub keep_resolved : List String → String → Value → Option Value
keep_resolved keys k v = if contains k keys && is_placeholder v then none else some v

abbrev pub is_unresolved : Option Value → Bool
is_unresolved none = false
is_unresolved (some v) = is_placeholder v

unfoldable pub drops_any : Members → List String → List String → Bool
unfolding contains value_at
drops_any m keys [] = false
drops_any m keys (k ∷ visited) =
    contains k keys && is_unresolved (value_at k m) || drops_any m keys visited

unfoldable pub drop_in_object : List String → Object → Option Object
unfolding drops_any rebuilt object_keys contains
drop_in_object keys o =
    if drops_any o.members keys (object_keys o) then some (rebuilt (keep_resolved keys) o) else none

unfoldable pub drop_unresolved_placeholders : Value → List String → Value
unfolding drop_in_object
drop_unresolved_placeholders (object ks m) (k ∷ keys) =
    elim (drop_in_object (k ∷ keys) (record { keys = ks; members = m })) [
      | none ↦ object ks m
      | some o ↦ as_value o
    ]
drop_unresolved_placeholders v keys = v

-- What `OmitPlaceholderContent` does: gives a text, or panics.
pub data Omitted : Type 0 where
  content : String → Omitted
  panics : Omitted

-- The test `dropped == value` on interfaces, and what follows it. Objects compare by their pointers,
-- which differ when keys were dropped; slices do not compare, and Go panics.
unfoldable pub omit_from : (Value → String) → String → List String → Value → Omitted
unfolding drop_in_object
omit_from serialize_file s keys (object ks m) =
    elim (drop_in_object keys (record { keys = ks; members = m })) [
      | none ↦ content s
      | some o ↦ content (serialize_file (as_value o))
    ]
omit_from serialize_file s keys (array xs) = panics
omit_from serialize_file s keys v = content s

module _ (parse : String → Option Value) (serialize serialize_file : Value → String) where
  unfoldable pub omit_placeholder_content : String → List String → Omitted
  unfolding omit_from includes
  omit_placeholder_content s [] = content s
  omit_placeholder_content s (k ∷ keys) =
      if includes s required_placeholder
      then (elim (parse s) [ none ↦ content s | some v ↦ omit_from serialize_file s (k ∷ keys) v ])
      else content s

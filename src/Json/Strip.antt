-- ===== src/Json/Strip.antt =====
-- `StripTopKeys` of internal/orderedjson/orderedjson.go.
pub mod Copy
pub mod Exact
use homer_cli.Base.{String, Option, none, some, List, if◌then◌else◌, contains}
use homer_cli.Json.{Value, array, object, Items, nil, item, Members, end, member, Object}
use homer_cli.Json.Rebuild.{rebuilt}

abbrev pub keep_all : String → Value → Option Value
keep_all k v = some v

-- Skips the keys that are to be stripped.
abbrev pub keep_others : List String → String → Value → Option Value
keep_others keys k v = if contains k keys then none else some v

abbrev pub as_value : Object → Value
as_value o = object o.keys o.members

-- `stripValue` below the top level: a deep copy. The members are copied first, and then listed as
-- `objectKeysForCopy` does, which looks at the keys alone.
unfoldable mutual
  unfolding rebuilt

  pub copy_value : Value → Value
  copy_value (array xs) = array (copy_items xs)
  copy_value (object ks m) =
      as_value (rebuilt keep_all (record { keys = ks; members = copy_members m }))
  copy_value v = v

  pub copy_items : Items → Items
  copy_items nil = nil
  copy_items (item v xs) = item (copy_value v) (copy_items xs)

  pub copy_members : Members → Members
  copy_members end = end
  copy_members (member k v m) = member k (copy_value v) (copy_members m)

unfoldable pub strip_top_keys : Value → List String → Value
unfolding copy_value rebuilt contains
strip_top_keys (object ks m) keys =
    as_value (rebuilt (keep_others keys) (record { keys = ks; members = copy_members m }))
strip_top_keys v keys = copy_value v

-- ===== src/Sync/Exclusion/Snapshots.antt =====
-- The snapshots of internal/sync/excludedkeys.go, and `StripExcludeKeys` of internal/engine/drift.go.
use Prim.Native.String.{[] as empty, ◌∷◌ as ◌∷ₜ◌}
use Prim.Native.Char.{code}
use homer_cli.Base.{
  String, Bool, false, ◌||◌, Option, none, some, List, [], ◌∷◌, ◌==◌, if◌then◌else◌, contains,
}
use homer_cli.Base.Dict.{Dict, lookup}
use homer_cli.Json.{Value, object, member_keys}
use homer_cli.Json.Strip.{as_value, strip_top_keys}
use homer_cli.Engine.Snapshot.{SnapshotEntry, SnapshotFiles, json, file}
use homer_cli.Engine.Drift.Report.{AdapterSnapshot, CategorySnapshot}
use homer_cli.Sync.Exclusion.{with_placeholders}

-- The part of `core.HomerConfig` that says which keys are excluded.
pub record CategoryConfig : Type 0 where
  pub exclude_keys : List String

pub record AdapterConfig : Type 0 where
  pub categories : Dict CategoryConfig

pub record HomerConfig : Type 0 where
  pub adapters : Dict AdapterConfig

abbrev pub listed : Option CategoryConfig → List String
listed none = []
listed (some c) = c.exclude_keys

unfoldable pub excluded_keys_for : HomerConfig → String → String → List String
unfolding lookup
excluded_keys_for config adapter category = keys_in (lookup adapter config.adapters)
  where
    keys_in : Option AdapterConfig → List String
    keys_in none = []
    keys_in (some a) = listed (lookup category a.categories)

unfoldable pub keys_by_category : Dict CategoryConfig → Dict (List String)
keys_by_category [] = []
keys_by_category ((name, c) ∷ more) = elim c.exclude_keys [
  | [] ↦ keys_by_category more
  | k ∷ ks ↦ (name, k ∷ ks) ∷ keys_by_category more
]

unfoldable pub excluded_keys_by_category : HomerConfig → String → Dict (List String)
unfolding lookup keys_by_category
excluded_keys_by_category config adapter = keys_in (lookup adapter config.adapters)
  where
    keys_in : Option AdapterConfig → Dict (List String)
    keys_in none = []
    keys_in (some a) = keys_by_category a.categories

abbrev pub listed_keys : Option (List String) → List String
listed_keys none = []
listed_keys (some keys) = keys

-- Whether a loop over `visited` meets an excluded key.
unfoldable pub any_excluded : List String → List String → Bool
unfolding contains
any_excluded keys [] = false
any_excluded keys (k ∷ visited) = contains k keys || any_excluded keys visited

-- Where a compact writer stands: outside texts, in a text, or after a backslash in one.
pub data Place : Type 0 where
  outside in_text escaped : Place

unfoldable pub compact_from : Place → String → String
compact_from place empty = empty
compact_from escaped (c ∷ₜ s) = c ∷ₜ compact_from in_text s
compact_from in_text (c ∷ₜ s) =
    let after_backslash = compact_from escaped s in
    let closed = compact_from outside s in
    let more = compact_from in_text s in
    c ∷ₜ (if code c == 0x5c then after_backslash else if code c == 0x22 then closed else more)
compact_from outside (c ∷ₜ s) =
    let opened = compact_from in_text s in
    let more = compact_from outside s in
    if code c == 0x22
    then c ∷ₜ opened
    else if code c == 0x20 || code c == 0x09 || code c == 0x0a || code c == 0x0d
    then more
    else c ∷ₜ more

unfoldable pub compact_serialize : (Value → String) → Value → String
unfolding compact_from
compact_serialize serialize v = compact_from outside (serialize v)

module _ (parse : String → Option Value) (serialize serialize_file : Value → String) where
  -- An entry that is a JSON object with an excluded key.
  unfoldable pub placeholder_value : SnapshotEntry → List String → Value → SnapshotEntry
  unfolding with_placeholders any_excluded member_keys
  placeholder_value e keys (object ks m) =
      if any_excluded keys (member_keys m)
      then record {
        kind = json;
        content =
            serialize_file (as_value (with_placeholders keys (record { keys = ks; members = m })));
      }
      else e
  placeholder_value e keys v = e

  unfoldable pub placeholder_entry : SnapshotEntry → List String → SnapshotEntry
  unfolding placeholder_value
  placeholder_entry e keys = elim e.kind [
    | file ↦ e
    | json ↦ elim (parse e.content) [ none ↦ e | some v ↦ placeholder_value e keys v ]
  ]

  unfoldable pub placeholder_files : List String → SnapshotFiles → SnapshotFiles
  unfolding placeholder_entry
  placeholder_files keys [] = []
  placeholder_files keys ((path, e) ∷ files) =
      (path, placeholder_entry e keys) ∷ placeholder_files keys files

  unfoldable pub placeholder_categories :
      Dict (List String) → List CategorySnapshot → List CategorySnapshot
  unfolding placeholder_files lookup
  placeholder_categories excluded [] = []
  placeholder_categories excluded (c ∷ cs) =
      elim (listed_keys (lookup c.category excluded)) [
        | [] ↦ c
        | k ∷ keys ↦ record c { files = placeholder_files (k ∷ keys) c.files }
      ]
      ∷ placeholder_categories excluded cs

  unfoldable pub apply_exclude_key_placeholders : AdapterSnapshot → HomerConfig → AdapterSnapshot
  unfolding placeholder_categories excluded_keys_by_category
  apply_exclude_key_placeholders s config = record s {
    categories =
        placeholder_categories (excluded_keys_by_category config s.adapter_id) s.categories;
  }

  unfoldable pub strip_entry : List String → SnapshotEntry → SnapshotEntry
  unfolding compact_serialize strip_top_keys
  strip_entry [] e = e
  strip_entry (k ∷ keys) e = elim e.kind [
    | file ↦ e
    | json ↦ elim (parse e.content) [
      | none ↦ e
      | some v ↦ record e { content = compact_serialize serialize (strip_top_keys v (k ∷ keys)) }
    ]
  ]

  unfoldable pub strip_files : List String → SnapshotFiles → SnapshotFiles
  unfolding strip_entry
  strip_files keys [] = []
  strip_files keys ((path, e) ∷ files) = (path, strip_entry keys e) ∷ strip_files keys files

  unfoldable pub strip_categories :
      Dict (List String) → List CategorySnapshot → List CategorySnapshot
  unfolding strip_files lookup
  strip_categories excluded [] = []
  strip_categories excluded (c ∷ cs) =
      record c { files = strip_files (listed_keys (lookup c.category excluded)) c.files }
      ∷ strip_categories excluded cs

  unfoldable pub strip_exclude_keys : AdapterSnapshot → Dict (List String) → AdapterSnapshot
  unfolding strip_categories
  strip_exclude_keys s excluded = record s { categories = strip_categories excluded s.categories }

  unfoldable pub strip_exclude_keys_snapshots :
      List AdapterSnapshot → Dict (List String) → List AdapterSnapshot
  unfolding strip_exclude_keys
  strip_exclude_keys_snapshots [] excluded = []
  strip_exclude_keys_snapshots (s ∷ more) excluded =
      strip_exclude_keys s excluded ∷ strip_exclude_keys_snapshots more excluded

-- ===== src/Sync/Scope.antt =====
-- internal/sync/scope.go: the adapters that an operation is limited to.
pub mod Selecting
pub mod Merging
use homer_cli.Base.{
  String, not, Option, none, some, List, [], ◌∷◌, ◌++◌, str_eq, if◌then◌else◌, contains,
}
use homer_cli.Base.Dict.{Dict, lookup, put, remove}
use homer_cli.Engine.Drift.Report.{AdapterSnapshot, adapter_ids}
use homer_cli.Resolutions.{valid_adapter_id}

-- What `ParseAdapterIDs` gives: the adapters, or an error.
pub data Selection : Type 0 where
  selected : List String → Selection
  invalid_id : String → Selection
  none_selected : Selection

-- The texts that the two loops visit.
unfoldable pub parts_of : (String → List String) → List String → List String
parts_of split_commas [] = []
parts_of split_commas (raw ∷ ids) = split_commas raw ++ parts_of split_commas ids

-- `strings.Split` at commas and `strings.TrimSpace` are parameters.
module _ (split_commas : String → List String) (trim_space : String → String) where
  -- The body of the loops; `out` is both `seen` and the list that grows.
  unfoldable pub select_parts : List String → List String → Selection
  unfolding contains valid_adapter_id
  select_parts out [] = selected out
  select_parts out (part ∷ parts) =
      let id = trim_space part in
      let skipped = select_parts out parts in
      let added = select_parts (out ++ id ∷ []) parts in
      if str_eq id ""
      then skipped
      else if not (valid_adapter_id id)
      then invalid_id id
      else if contains id out
      then skipped
      else added

  unfoldable pub parse_adapter_ids : List String → Selection
  unfolding select_parts parts_of
  parse_adapter_ids ids = elim (select_parts [] (parts_of split_commas ids)) [
    | selected [] ↦ none_selected
    | other ↦ other
  ]

-- none for a nil selection, which restricts nothing
unfoldable pub filter_in : List AdapterSnapshot → List String → List AdapterSnapshot
unfolding contains
filter_in [] ids = []
filter_in (s ∷ more) ids =
    let rest = filter_in more ids in if contains s.adapter_id ids then s ∷ rest else rest

unfoldable pub filter_snapshots : List AdapterSnapshot → Option (List String) → List AdapterSnapshot
unfolding filter_in
filter_snapshots snapshots none = snapshots
filter_snapshots snapshots (some ids) = filter_in snapshots ids

-- The adapters that are not in `have`.
unfoldable pub missing_from : List String → List String → List String
unfolding contains
missing_from have [] = []
missing_from have (id ∷ ids) =
    let rest = missing_from have ids in if contains id have then rest else id ∷ rest

unfoldable pub missing_adapter_ids : List AdapterSnapshot → List String → List String
unfolding missing_from adapter_ids
missing_adapter_ids snapshots ids = missing_from (adapter_ids snapshots) ids

-- Adapter, path and content
abbrev pub Store : Type 0
Store = Dict (Dict String)

-- The files of an adapter, unless there are none.
abbrev pub some_files : Option (Dict String) → Option (Dict String)
some_files none = none
some_files (some []) = none
some_files (some (f ∷ fs)) = some (f ∷ fs)

abbrev pub put_files : String → Option (Dict String) → Store → Store
put_files id none out = out
put_files id (some files) out = put id files out

unfoldable pub merge_scope : Store → Store → List String → Store
unfolding lookup put remove
merge_scope out patch [] = out
merge_scope out patch (id ∷ scope) =
    merge_scope (put_files id (some_files (lookup id patch)) (remove id out)) patch scope

-- `MergeScopedStore`; the copies that it makes of the files are the files.
unfoldable pub merge_scoped_store : Store → Store → List String → Store
unfolding merge_scope
merge_scoped_store base patch scope = merge_scope base patch scope

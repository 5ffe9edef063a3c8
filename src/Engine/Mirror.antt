-- ===== src/Engine/Mirror.antt =====
-- internal/engine/mirror.go: the decision on one file from its base, local and remote state.
pub mod Matrix
pub mod Category
use homer_cli.Base.{
  String, Bool, true, false, not, ◌&&◌, Option, none, some, List, [], ◌∷◌, map, str_eq,
  if◌then◌else◌, append_new, sort_strings,
}
use homer_cli.Base.Dict.{Dict, lookup}
use homer_cli.Engine.Snapshot.{SnapshotEntry, SnapshotFiles}

pub data OpType : Type 0 where
  noop pull push pull_delete push_delete conflict : OpType

pub data Reason : Type 0 where
  no_reason modify_vs_modify local_delete_vs_remote_modify local_modify_vs_remote_delete : Reason

pub record MirrorOp : Type 0 where
  pub type : OpType
  pub path : String
  pub reason : Reason

abbrev pub is_absent {ℓ} : {A : Type ℓ} → Option A → Bool
is_absent none = true
is_absent (some a) = false

-- Both are there, with the same content; the kind is ignored.
abbrev pub same_content : Option SnapshotEntry → Option SnapshotEntry → Bool
same_content none b = false
same_content (some a) none = false
same_content (some a) (some b) = str_eq a.content b.content

-- The early returns of `CompareFile`, in their order.
unfoldable pub compare_file :
    Option SnapshotEntry → Option SnapshotEntry → Option SnapshotEntry → String → MirrorOp
compare_file base local remote rel_path =
    let local_equals_base = same_content local base in
    let remote_equals_base = same_content remote base in
    if is_absent base && is_absent local && is_absent remote
    then op noop no_reason
    else if is_absent local && is_absent remote
    then op noop no_reason
    else if is_absent base
    then if is_absent local
      then op pull no_reason
      else if is_absent remote
      then op push no_reason
      else if same_content local remote
      then op noop no_reason
      else op conflict modify_vs_modify
    else if is_absent local
    then if remote_equals_base
      then op push_delete no_reason
      else op conflict local_delete_vs_remote_modify
    else if is_absent remote
    then if local_equals_base
      then op pull_delete no_reason
      else op conflict local_modify_vs_remote_delete
    else if local_equals_base && remote_equals_base
    then op noop no_reason
    else if local_equals_base
    then op pull no_reason
    else if remote_equals_base
    then op push no_reason
    else op conflict modify_vs_modify
  where
    op : OpType → Reason → MirrorOp
    op t r = record { type = t; path = rel_path; reason = r }

-- `range` over a map, keys only
unfoldable pub file_paths : SnapshotFiles → List String
file_paths [] = []
file_paths ((path, e) ∷ files) = path ∷ file_paths files

-- `unionPaths` of drift.go; `CompareCategory` has the same loops.
unfoldable pub union_paths : SnapshotFiles → SnapshotFiles → SnapshotFiles → List String
unfolding file_paths append_new sort_strings
union_paths base local remote = sort_strings (
    append_new (append_new (append_new [] (file_paths base)) (file_paths local))
      (file_paths remote))

unfoldable pub compare_paths :
    SnapshotFiles → SnapshotFiles → SnapshotFiles → List String → List MirrorOp
compare_paths base local remote [] = []
compare_paths base local remote (path ∷ paths) =
    compare_file (lookup path base) (lookup path local) (lookup path remote) path
    ∷ compare_paths base local remote paths

unfoldable pub compare_category : SnapshotFiles → SnapshotFiles → SnapshotFiles → List MirrorOp
unfolding compare_paths
compare_category base local remote = compare_paths base local remote (union_paths base local remote)

-- ===== src/Engine/Mirror/Category.antt =====
-- The decisions of `compare_category`, path by path.
use homer_cli.Base.{
  String, ◌≡◌, refl, Bool, true, false, Option, none, some, List, [], ◌∷◌, arith, str_eq,
  str_eq_iff, if◌then◌else◌, contains, contains-append_new, contains-sort_strings, append_new,
}
use homer_cli.Base.Dict.{lookup}
use homer_cli.Base.Counting.{IsNodup, IsNodup-append_new, IsNodup-sort_strings}
use homer_cli.Engine.Snapshot.{SnapshotEntry, SnapshotFiles}
use homer_cli.Engine.Mirror.{
  MirrorOp, compare_file, file_paths, union_paths, compare_paths, compare_category, is_absent,
}

-- The first decision on a path.
abbrev pub op_at : String → List MirrorOp → Option MirrorOp
op_at path [] = none
op_at path (op ∷ ops) = if str_eq op.path path then some op else op_at path ops

abbrev pub op_paths : List MirrorOp → List String
op_paths [] = []
op_paths (op ∷ ops) = op.path ∷ op_paths ops

-- Some side has the file.
abbrev pub any_side : SnapshotFiles → SnapshotFiles → SnapshotFiles → String → Bool
any_side base local remote path =
    if is_absent (lookup path base)
    then if is_absent (lookup path local)
      then if is_absent (lookup path remote) then false else true
      else true
    else true

path-compare_file :
    (b l r : Option SnapshotEntry) (path : String) → (compare_file b l r path).path ≡ path
unfolding compare_file
path-compare_file b l r path = ground arith

contains-file_paths :
    (path : String) (files : SnapshotFiles)
    → contains path (file_paths files) ≡ (if is_absent (lookup path files) then false else true)
unfolding contains file_paths lookup
contains-file_paths path [] = refl
contains-file_paths path ((p, e) ∷ files) = ground (arith, contains-file_paths path files)

module _ (base local remote : SnapshotFiles) where
  contains-union_paths :
      (path : String)
      → contains path (union_paths base local remote) ≡ any_side base local remote path
  unfolding union_paths contains
  contains-union_paths path =
      let bs = append_new [] (file_paths base) in
      let ls = append_new bs (file_paths local) in
      ground (
        arith,
        contains-sort_strings path (append_new ls (file_paths remote)),
        contains-append_new path ls (file_paths remote),
        contains-append_new path bs (file_paths local),
        contains-append_new path [] (file_paths base),
        contains-file_paths path base,
        contains-file_paths path local,
        contains-file_paths path remote,
      )

  IsNodup-union_paths : IsNodup (union_paths base local remote)
  unfolding union_paths
  IsNodup-union_paths = IsNodup-sort_strings _ (
      IsNodup-append_new _ (file_paths remote)
        (IsNodup-append_new _ (file_paths local) (IsNodup-append_new [] (file_paths base) tt)))

  op_paths-compare_paths :
      (paths : List String) → op_paths (compare_paths base local remote paths) ≡ paths
  unfolding compare_paths
  op_paths-compare_paths [] = refl
  op_paths-compare_paths (path ∷ paths) = cc (
    path-compare_file (lookup path base) (lookup path local) (lookup path remote) path,
    op_paths-compare_paths paths,
  )

  op_at-compare_paths :
      (path : String) (paths : List String)
      → op_at path (compare_paths base local remote paths) ≡ (
          if contains path paths
          then some (compare_file (lookup path base) (lookup path local) (lookup path remote) path)
          else none)
  unfolding compare_paths contains
  op_at-compare_paths path [] = refl
  op_at-compare_paths path (p ∷ paths) = ground (
    arith,
    path-compare_file (lookup p base) (lookup p local) (lookup p remote) p,
    op_at-compare_paths path paths,
    str_eq_iff p path,
  )

  -- A path gets a decision exactly if one of the three sides has the file, and then the decision of
  -- `compare_file` on the three entries; no path is decided on twice.
  pub op_at-compare_category :
      (path : String)
      → IsNodup (op_paths (compare_category base local remote))
        × (op_at path (compare_category base local remote) ≡ (
            if any_side base local remote path
            then some
                (compare_file (lookup path base) (lookup path local) (lookup path remote) path)
            else none))
  unfolding compare_category
  op_at-compare_category path = (
    rw (op_paths-compare_paths (union_paths base local remote)) IsNodup-union_paths,
    rw (← contains-union_paths path) (op_at-compare_paths path (union_paths base local remote)),
  )

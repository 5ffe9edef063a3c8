-- ===== src/Examples/Mirror.antt =====
-- Decisions on files.
use homer_cli.Base.{◌≡◌, refl, none, some, [], ◌∷◌, if◌then◌else◌}
use homer_cli.Base.Dict.{lookup}
use homer_cli.Base.Counting.{IsNodup}
use homer_cli.Engine.Snapshot.{SnapshotEntry, SnapshotFiles, file}
use homer_cli.Engine.Mirror.{compare_file, compare_category, local_delete_vs_remote_modify}
use homer_cli.Engine.Mirror.Matrix.{
  Verdict, compare_file-Verdict, compare_file_swap, opposite, opposite_reason,
}
use homer_cli.Engine.Mirror.Category.{op_at, op_paths, any_side, op_at-compare_category}

abbrev old : SnapshotEntry
old = record { kind = file; content = "old" }

abbrev new : SnapshotEntry
new = record { kind = file; content = "new" }

deleted_and_modified :
    (compare_file (some old) none (some new) "a").reason ≡ local_delete_vs_remote_modify
unfolding compare_file
deleted_and_modified = refl

compare_file-Verdict_example :
    Verdict
      (compare_file (some old) (some old) (some new) "a").type
      (some "old")
      (some "old")
      (some "new")
compare_file-Verdict_example = compare_file-Verdict (some old) (some old) (some new) "a"

compare_file_swap_example : compare_file (some old) (some new) (some old) "a" ≡ record {
  type = opposite (compare_file (some old) (some old) (some new) "a").type;
  path = "a";
  reason = opposite_reason (compare_file (some old) (some old) (some new) "a").reason;
}
compare_file_swap_example = compare_file_swap (some old) (some old) (some new) "a"

abbrev base_files : SnapshotFiles
base_files = ("a", old) ∷ ("b", old) ∷ []

abbrev remote_files : SnapshotFiles
remote_files = ("c", new) ∷ ("a", new) ∷ []

op_at-compare_category_example :
    IsNodup (op_paths (compare_category base_files base_files remote_files))
    × (op_at "c" (compare_category base_files base_files remote_files) ≡ (
        if any_side base_files base_files remote_files "c"
        then some (
            compare_file
              (lookup "c" base_files)
              (lookup "c" base_files)
              (lookup "c" remote_files)
              "c")
        else none))
op_at-compare_category_example = op_at-compare_category base_files base_files remote_files "c"

-- ===== src/Engine/Drift.antt =====
-- `ComputeDrift` of internal/engine/drift.go: what a category has to push, to pull and to resolve.
pub mod Accounts
pub mod Report
pub mod InStep
use homer_cli.Base.{
  ℕ, ◌+◌, String, Bool, true, false, not, ◌&&◌, ◌||◌, Option, none, some, List, [], ◌∷◌, ◌++◌,
  length, contains, append_new, str_eq, ◌+++◌, if◌then◌else◌,
}
use homer_cli.Base.Dict.{lookup}
use homer_cli.Json.{Value, null, object}
use homer_cli.Json.Numbers.{FloatParser}
use homer_cli.Engine.Snapshot.{SnapshotEntry, SnapshotFiles, Kind, json, file}
use homer_cli.Engine.Mirror.{
  OpType, push, pull, push_delete, pull_delete, conflict, noop, no_reason, MirrorOp, is_absent,
  compare_file, compare_category, union_paths,
}
use homer_cli.Engine.Merge.{
  MergeReason, modify_vs_delete, both_modified, MergeConflict, merge_json, empty_object,
}
use homer_cli.Engine.Diff.{diff_json}

-- A conflict with the file that it is in, the field `File` of `MergeConflict`.
pub record FileConflict : Type 0 where
  pub file_path : String
  pub key_conflict : MergeConflict

-- The counters and lists of `CategoryDrift`.
pub record Drift : Type 0 where
  pub to_push : ℕ
  pub to_pull : ℕ
  pub conflicts : ℕ
  pub ops : List MirrorOp
  pub merge_conflicts : List FileConflict
  pub changed_keys : List String

abbrev pub no_drift : Drift
no_drift = record {
  to_push = 0;
  to_pull = 0;
  conflicts = 0;
  ops = [];
  merge_conflicts = [];
  changed_keys = [];
}

abbrev pub pushes : OpType → ℕ
pushes push = 1
pushes push_delete = 1
pushes _ = 0

abbrev pub pulls : OpType → ℕ
pulls pull = 1
pulls pull_delete = 1
pulls _ = 0

abbrev pub clashes : OpType → ℕ
clashes conflict = 1
clashes _ = 0

unfoldable pub count_mirror_op : Drift → MirrorOp → Drift
count_mirror_op d op = record {
  to_push = d.to_push + pushes op.type;
  to_pull = d.to_pull + pulls op.type;
  conflicts = d.conflicts + clashes op.type;
  ops = d.ops;
  merge_conflicts = d.merge_conflicts;
  changed_keys = d.changed_keys;
}

unfoldable pub count_ops : Drift → List MirrorOp → Drift
unfolding count_mirror_op
count_ops d [] = d
count_ops d (op ∷ ops) = count_ops (count_mirror_op d op) ops

abbrev pub with_op : MirrorOp → Drift → Drift
with_op op d = record {
  to_push = d.to_push;
  to_pull = d.to_pull;
  conflicts = d.conflicts;
  ops = d.ops ++ op ∷ [];
  merge_conflicts = d.merge_conflicts;
  changed_keys = d.changed_keys;
}

-- drift.Ops = append(drift.Ops, op); countMirrorOp(drift, op)
abbrev pub add_op : Drift → MirrorOp → Drift
add_op d op = count_mirror_op (with_op op d) op

-- A pull is counted and listed.
unfoldable pub note_pull : Drift → OpType → String → Drift
note_pull d status path = record {
  to_push = d.to_push;
  to_pull = d.to_pull + 1;
  conflicts = d.conflicts;
  ops = d.ops ++ record { type = status; path = path; reason = no_reason } ∷ [];
  merge_conflicts = d.merge_conflicts;
  changed_keys = d.changed_keys;
}

unfoldable pub add_conflicts : Drift → List FileConflict → Drift
add_conflicts d cs = record {
  to_push = d.to_push;
  to_pull = d.to_pull;
  conflicts = d.conflicts + length cs;
  ops = d.ops;
  merge_conflicts = d.merge_conflicts ++ cs;
  changed_keys = d.changed_keys;
}

-- A conflict about a whole file; its three values stay nil.
abbrev pub whole_file : String → MergeReason → FileConflict
whole_file path reason = record {
  file_path = path;
  key_conflict = record {
    key_path = path;
    reason = reason;
    base = null;
    local = null;
    remote = null;
  };
}

abbrev pub in_file : String → List MergeConflict → List FileConflict
in_file path [] = []
in_file path (c ∷ cs) = record { file_path = path; key_conflict = c } ∷ in_file path cs

abbrev pub keys_of_file : String → List String → List String
keys_of_file path [] = []
keys_of_file path (key ∷ keys) = (path +++ ":" +++ key) ∷ keys_of_file path keys

-- The loop over the keys that the remote side changed.
unfoldable pub note_pulls : Drift → String → List String → List String → Drift
unfolding note_pull contains
note_pulls d path local_changed [] = d
note_pulls d path local_changed (key ∷ keys) =
    note_pulls (if contains key local_changed then d else note_pull d pull (path +++ ":" +++ key))
      path local_changed keys

abbrev pub is_empty : List String → Bool
is_empty [] = true
is_empty (k ∷ ks) = false

-- `parse` is `orderedjson.Parse`; what follows holds for any parser.
module _ ⦃fl : FloatParser⦄ (parse : String → Option Value) where
  abbrev pub is_degraded : Option SnapshotEntry → Bool
  is_degraded none = false
  is_degraded (some e) = elim (e.kind) [ file ↦ true | json ↦ is_absent (parse e.content) ]

  -- The value of a side; a missing file is an empty object.
  abbrev pub value_of : Option SnapshotEntry → Option Value
  value_of none = some (object empty_object.keys empty_object.members)
  value_of (some e) = parse e.content

  unfoldable pub count_diff : Drift → String → Value → Value → Drift
  unfolding diff_json
  count_diff d path base local =
      let diff = diff_json base local in
      record {
        to_push = d.to_push + (diff.changed + diff.added + diff.deleted);
        to_pull = d.to_pull;
        conflicts = d.conflicts;
        ops = d.ops;
        merge_conflicts = d.merge_conflicts;
        changed_keys = d.changed_keys ++ keys_of_file path diff.keys;
      }

  -- The end of `accumulateMergeFile`, with the three values.
  unfoldable pub count_merge : Drift → String → Value → Value → Value → Drift
  unfolding merge_json diff_json add_conflicts note_pulls
  count_merge d path base local remote =
      note_pulls (add_conflicts d (in_file path (merge_json base local remote).conflicts)) path
        (diff_json base local).keys (diff_json base remote).keys

  -- `accumulateMergeFile` after the local changes are counted.
  unfoldable pub count_sides :
      Drift
      → String
      → Value
      → Value
      → Option SnapshotEntry
      → Option SnapshotEntry
      → Option SnapshotEntry
      → Drift
  unfolding note_pull add_conflicts count_merge count_mirror_op compare_file diff_json
  count_sides d path bv lv none none r = note_pull d pull path
  count_sides d path bv lv none (some l) none = d
  count_sides d path bv lv none (some l) (some r) =
      if str_eq l.content r.content then d else add_conflicts d (whole_file path both_modified ∷ [])
  count_sides d path bv lv (some b) none none = d
  count_sides d path bv lv (some b) none (some r) =
      if str_eq r.content b.content
      then d
      else add_conflicts d (whole_file path modify_vs_delete ∷ [])
  count_sides d path bv lv (some b) (some l) none =
      if is_empty (diff_json bv lv).keys
      then note_pull d pull_delete path
      else add_conflicts d (whole_file path modify_vs_delete ∷ [])
  count_sides d path bv lv (some b) (some l) (some r) = elim (parse r.content) [
    | none ↦ add_op d (compare_file (some b) (some l) (some r) path)
    | some rv ↦ count_merge d path bv lv rv
  ]

  unfoldable pub count_values :
      Drift
      → String
      → Option Value
      → Option Value
      → Option SnapshotEntry
      → Option SnapshotEntry
      → Option SnapshotEntry
      → Drift
  unfolding count_diff count_sides count_mirror_op compare_file
  count_values d path (some bv) (some lv) b l r =
      count_sides (count_diff d path bv lv) path bv lv b l r
  count_values d path _ _ b l r = add_op d (compare_file b l r path)

  unfoldable pub accumulate_merge_file :
      Drift → String → Option SnapshotEntry → Option SnapshotEntry → Option SnapshotEntry → Drift
  unfolding count_values count_mirror_op compare_file
  accumulate_merge_file d path b l r =
      if is_degraded b || is_degraded l || is_degraded r
      then add_op d (compare_file b l r path)
      else if is_absent l && is_absent r
      then d
      else count_values d path (value_of b) (value_of l) b l r

  unfoldable pub accumulate_paths :
      Drift → SnapshotFiles → SnapshotFiles → SnapshotFiles → List String → Drift
  unfolding accumulate_merge_file lookup
  accumulate_paths d base local remote [] = d
  accumulate_paths d base local remote (path ∷ paths) =
      accumulate_paths
        (accumulate_merge_file d path (lookup path base) (lookup path local) (lookup path remote))
        base local remote paths

  -- `computeCategoryDrift`
  unfoldable pub category_drift : String → SnapshotFiles → SnapshotFiles → SnapshotFiles → Drift
  unfolding accumulate_paths count_ops compare_category union_paths
  category_drift mode base local remote =
      if str_eq mode "mirror"
      then listed (compare_category base local remote)
      else accumulate_paths no_drift base local remote (union_paths base local remote)
    where
      listed : List MirrorOp → Drift
      listed ops =
          count_ops
            (record {
              to_push = 0;
              to_pull = 0;
              conflicts = 0;
              ops = ops;
              merge_conflicts = [];
              changed_keys = [];
            })
            ops

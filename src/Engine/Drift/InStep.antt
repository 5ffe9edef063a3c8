-- ===== src/Engine/Drift/InStep.antt =====
-- Categories in which the three sides are the same.
use homer_cli.Base.{
  ℕ, zero, suc, ◌≡◌, refl, ap, String, true, inl, inr, Bool-cases, Option-cases, Option, none, some,
  List, [], ◌∷◌, length, str_eq, str_eq_refl, arith,
}
use homer_cli.Base.Dict.{lookup}
use homer_cli.Json.{Value, height}
use homer_cli.Json.Numbers.{FloatParser}
use homer_cli.Json.Equal.{same_slot, deep_equal}
use homer_cli.Json.Pointwise.{IsJson}
use homer_cli.Json.Equivalence.{deep_equal_refl}
use homer_cli.Engine.Snapshot.{SnapshotEntry, SnapshotFiles}
use homer_cli.Engine.Mirror.{
  noop, MirrorOp, compare_file, compare_category, compare_paths, union_paths,
}
use homer_cli.Engine.Merge.{merge_json, merge_slot}
use homer_cli.Engine.Diff.{diff_json}
use homer_cli.Engine.Diff.Exact.{diff_json_counts, diff_json_exact}
use homer_cli.Engine.Drift.{
  Drift, no_drift, count_mirror_op, count_ops, add_op, add_conflicts, note_pulls, is_degraded,
  count_diff, count_merge, count_sides, count_values, accumulate_merge_file, accumulate_paths,
  category_drift,
}

-- Nothing to push, to pull or to resolve.
abbrev pub IsInStep : Drift → Type 0
IsInStep d = (d.to_push ≡ 0) × (d.to_pull ≡ 0) × (d.conflicts ≡ 0)

compare_file_same :
    (o : Option SnapshotEntry) (path : String) → (compare_file o o o path).type ≡ noop
unfolding compare_file
compare_file_same none path = refl
compare_file_same (some e) path = ground (arith, str_eq_refl e.content)

add_op-IsInStep : (d : Drift) (op : MirrorOp) → op.type ≡ noop → IsInStep d → IsInStep (add_op d op)
unfolding count_mirror_op
add_op-IsInStep d op e (p, q, r) = rw e (omega (arith, p), omega (arith, q), omega (arith, r))

count_ops-IsInStep :
    (files : SnapshotFiles) (paths : List String) (d : Drift)
    → IsInStep d
    → IsInStep (count_ops d (compare_paths files files files paths))
unfolding count_ops count_mirror_op compare_paths
count_ops-IsInStep files [] d h = h
count_ops-IsInStep files (path ∷ paths) d (p, q, r) =
    count_ops-IsInStep files paths
      (count_mirror_op d
        (compare_file (lookup path files) (lookup path files) (lookup path files) path))
      (rw (compare_file_same (lookup path files) path)
        (omega (arith, p), omega (arith, q), omega (arith, r)))

module _ ⦃fl : FloatParser⦄ where
  slot_same :
      (n : ℕ) (path : String) (v : Value)
      → deep_equal v v ≡ true
      → (merge_slot n path (some v) (some v) (some v)).1 ≡ []
  unfolding merge_slot same_slot
  slot_same zero path v h = refl
  slot_same (suc n) path v h = rw (merge_slot, h) refl

  merge_same : (v : Value) → IsJson v → (merge_json v v v).conflicts ≡ []
  unfolding merge_json
  merge_same v h = slot_same (height v) "" v (deep_equal_refl v h)

  diff_same : (v : Value) → IsJson v → (diff_json v v).keys ≡ []
  diff_same v h = (diff_json_exact v v h h).1 (deep_equal_refl v h)

  count_diff-IsInStep :
      (parse : String → Option Value) (d : Drift) (path : String) (v : Value)
      → IsJson v
      → IsInStep d
      → IsInStep (count_diff parse d path v v)
  unfolding count_diff
  count_diff-IsInStep parse d path v h (p, q, r) = (
    omega (arith, p, diff_json_counts v v, ap (λ (xs : List String). length xs) (diff_same v h)),
    q,
    r,
  )

  count_merge-IsInStep :
      (parse : String → Option Value) (d : Drift) (path : String) (v : Value)
      → IsJson v
      → IsInStep d
      → IsInStep (count_merge parse d path v v v)
  unfolding count_merge add_conflicts note_pulls
  count_merge-IsInStep parse d path v h (p, q, r) =
      rw (count_merge, diff_same v h, merge_same v h) (p, q, omega (arith, r))

  count_sides_same :
      (parse : String → Option Value) (d : Drift) (path : String) (v : Value) (e : SnapshotEntry)
      → parse e.content ≡ some v
      → IsJson v
      → IsInStep d
      → IsInStep (count_sides parse d path v v (some e) (some e) (some e))
  unfolding count_sides
  count_sides_same parse d path v e good h k =
      rw (count_sides, good) (count_merge-IsInStep parse d path v h k)

  module _ (parse : String → Option Value)
      (parses_json : (s : String) (v : Value) → parse s ≡ some v → IsJson v) where
    accumulate_merge_file-IsInStep :
        (d : Drift) (path : String) (o : Option SnapshotEntry)
        → IsInStep d
        → IsInStep (accumulate_merge_file parse d path o o o)
    unfolding accumulate_merge_file count_values
    accumulate_merge_file-IsInStep d path none h = h
    accumulate_merge_file-IsInStep d path (some e) h =
        elim (Bool-cases (is_degraded parse (some e))) [
          | inl degraded ↦
              rw (accumulate_merge_file, degraded)
                (add_op-IsInStep d (compare_file (some e) (some e) (some e) path)
                  (compare_file_same (some e) path) h)
          | inr fine ↦ elim (Option-cases (parse e.content)) [
            | inl bad ↦
                rw (accumulate_merge_file, fine, bad)
                  (add_op-IsInStep d (compare_file (some e) (some e) (some e) path)
                    (compare_file_same (some e) path) h)
            | inr (v, good) ↦
                rw (accumulate_merge_file, fine, good)
                  (count_sides_same parse (count_diff parse d path v v) path v e good
                    (parses_json e.content v good)
                    (count_diff-IsInStep parse d path v (parses_json e.content v good) h))
          ]
        ]

    accumulate_paths-IsInStep :
        (files : SnapshotFiles) (paths : List String) (d : Drift)
        → IsInStep d
        → IsInStep (accumulate_paths parse d files files files paths)
    unfolding accumulate_paths
    accumulate_paths-IsInStep files [] d h = h
    accumulate_paths-IsInStep files (path ∷ paths) d h =
        accumulate_paths-IsInStep files paths
          (accumulate_merge_file parse d path (lookup path files) (lookup path files)
            (lookup path files))
          (accumulate_merge_file-IsInStep d path (lookup path files) h)

    -- For a parser that gives JSON values, in every mode: a category that is the same in the base, on
    -- the machine and in the store has nothing to push, to pull or to resolve.
    pub category_drift-IsInStep :
        (mode : String) (files : SnapshotFiles)
        → IsInStep (category_drift parse mode files files files)
    unfolding category_drift compare_category
    category_drift-IsInStep mode files = elim (Bool-cases (str_eq mode "mirror")) [
      | inl mirrored ↦ rw mirrored (
          count_ops-IsInStep files (union_paths files files files)
            (record {
              to_push = 0;
              to_pull = 0;
              conflicts = 0;
              ops = compare_category files files files;
              merge_conflicts = [];
              changed_keys = [];
            })
            (refl, refl, refl))
      | inr merged ↦ rw merged (
          accumulate_paths-IsInStep files (union_paths files files files) no_drift
            (refl, refl, refl))
    ]

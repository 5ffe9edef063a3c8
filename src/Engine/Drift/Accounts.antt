-- ===== src/Engine/Drift/Accounts.antt =====
-- The counters of a drift against its lists.
use homer_cli.Base.{
  ℕ, ◌+◌, ◌≡◌, refl, String, ◌&&◌, ◌||◌, inl, inr, Bool-cases, Option-cases, Option, none, some,
  List, [], ◌∷◌, ◌++◌, length, length-append, contains, str_eq, ◌+++◌, arith,
}
use homer_cli.Base.Dict.{lookup}
use homer_cli.Json.{Value}
use homer_cli.Json.Numbers.{FloatParser}
use homer_cli.Engine.Snapshot.{SnapshotEntry, SnapshotFiles}
use homer_cli.Engine.Mirror.{
  OpType, pull, pull_delete, MirrorOp, is_absent, compare_category, union_paths,
}
use homer_cli.Engine.Merge.{merge_json}
use homer_cli.Engine.Diff.{diff_json}
use homer_cli.Engine.Diff.Exact.{diff_json_counts}
use homer_cli.Engine.Drift.{
  FileConflict, Drift, no_drift, pushes, pulls, clashes, count_mirror_op, count_ops, add_op,
  note_pull, add_conflicts, in_file, keys_of_file, note_pulls, is_empty, is_degraded, value_of,
  count_diff, count_merge, count_sides, count_values, accumulate_merge_file, accumulate_paths,
  category_drift,
}

abbrev pub sum_of : (OpType → ℕ) → List MirrorOp → ℕ
sum_of f [] = 0
sum_of f (op ∷ ops) = f op.type + sum_of f ops

-- The counters are what the lists add up to.
abbrev pub IsAccounted : Drift → Type 0
IsAccounted d =
    (d.to_push ≡ sum_of pushes d.ops + length d.changed_keys)
    × (d.to_pull ≡ sum_of pulls d.ops)
    × (d.conflicts ≡ sum_of clashes d.ops + length d.merge_conflicts)

sum_of-snoc :
    (f : OpType → ℕ) (ops : List MirrorOp) (op : MirrorOp)
    → sum_of f (ops ++ op ∷ []) ≡ sum_of f ops + f op.type
sum_of-snoc f [] op = omega arith
sum_of-snoc f (o ∷ ops) op = omega (arith, sum_of-snoc f ops op)

add_op-IsAccounted : (d : Drift) (op : MirrorOp) → IsAccounted d → IsAccounted (add_op d op)
unfolding count_mirror_op
add_op-IsAccounted d op (p, q, r) = (
  omega (arith, sum_of-snoc pushes d.ops op),
  omega (arith, sum_of-snoc pulls d.ops op),
  omega (arith, sum_of-snoc clashes d.ops op),
)

note_pull-IsAccounted :
    (d : Drift) (status : OpType) (path : String)
    → pulls status ≡ 1
    → pushes status ≡ 0
    → clashes status ≡ 0
    → IsAccounted d
    → IsAccounted (note_pull d status path)
unfolding note_pull
note_pull-IsAccounted d status path e f g (p, q, r) = (
  omega (arith, f, sum_of-snoc pushes d.ops _),
  omega (arith, e, sum_of-snoc pulls d.ops _),
  omega (arith, g, sum_of-snoc clashes d.ops _),
)

add_conflicts-IsAccounted :
    (d : Drift) (cs : List FileConflict) → IsAccounted d → IsAccounted (add_conflicts d cs)
unfolding add_conflicts
add_conflicts-IsAccounted d cs (p, q, r) = (p, q, omega (arith, length-append d.merge_conflicts cs))

length-keys_of_file :
    (path : String) (keys : List String) → length (keys_of_file path keys) ≡ length keys
length-keys_of_file path [] = refl
length-keys_of_file path (key ∷ keys) = omega (arith, length-keys_of_file path keys)

note_pulls-IsAccounted :
    (d : Drift) (path : String) (local_changed keys : List String)
    → IsAccounted d
    → IsAccounted (note_pulls d path local_changed keys)
unfolding note_pulls
note_pulls-IsAccounted d path local_changed [] h = h
note_pulls-IsAccounted d path local_changed (key ∷ keys) h =
    elim (Bool-cases (contains key local_changed)) [
      | inl mine ↦ rw (note_pulls, mine) (note_pulls-IsAccounted d path local_changed keys h)
      | inr theirs ↦
          rw (note_pulls, theirs)
            (note_pulls-IsAccounted (note_pull d pull (path +++ ":" +++ key)) path local_changed
              keys (note_pull-IsAccounted d pull (path +++ ":" +++ key) refl refl refl h))
    ]

count_ops-counters :
    (d : Drift) (ops : List MirrorOp)
    → ((count_ops d ops).to_push ≡ d.to_push + sum_of pushes ops)
      × ((count_ops d ops).to_pull ≡ d.to_pull + sum_of pulls ops)
      × ((count_ops d ops).conflicts ≡ d.conflicts + sum_of clashes ops)
      × ((count_ops d ops).ops ≡ d.ops)
      × ((count_ops d ops).merge_conflicts ≡ d.merge_conflicts)
      × ((count_ops d ops).changed_keys ≡ d.changed_keys)
unfolding count_ops count_mirror_op
count_ops-counters d [] = (omega arith, omega arith, omega arith, refl, refl, refl)
count_ops-counters d (op ∷ ops) =
    let (p, q, r, s, t, u) = count_ops-counters (count_mirror_op d op) ops in
    (omega (arith, p), omega (arith, q), omega (arith, r), s, t, u)

module _ ⦃fl : FloatParser⦄ (parse : String → Option Value) where
  count_diff-IsAccounted :
      (d : Drift) (path : String) (base local : Value)
      → IsAccounted d
      → IsAccounted (count_diff parse d path base local)
  unfolding count_diff
  count_diff-IsAccounted d path base local (p, q, r) = (
    omega (
      arith,
      diff_json_counts base local,
      length-keys_of_file path (diff_json base local).keys,
      length-append d.changed_keys (keys_of_file path (diff_json base local).keys),
    ),
    q,
    r,
  )

  count_merge-IsAccounted :
      (d : Drift) (path : String) (base local remote : Value)
      → IsAccounted d
      → IsAccounted (count_merge parse d path base local remote)
  unfolding count_merge
  count_merge-IsAccounted d path base local remote h =
      let cs = in_file path (merge_json base local remote).conflicts in
      note_pulls-IsAccounted (add_conflicts d cs) path (diff_json base local).keys
        (diff_json base remote).keys (add_conflicts-IsAccounted d cs h)

  count_sides-IsAccounted :
      (d : Drift) (path : String) (bv lv : Value) (b l r : Option SnapshotEntry)
      → IsAccounted d
      → IsAccounted (count_sides parse d path bv lv b l r)
  unfolding count_sides
  count_sides-IsAccounted d path bv lv none none r h =
      note_pull-IsAccounted d pull path refl refl refl h
  count_sides-IsAccounted d path bv lv none (some l) none h = h
  count_sides-IsAccounted d path bv lv none (some l) (some r) h =
      elim (Bool-cases (str_eq l.content r.content)) [
        | inl e ↦ rw e h
        | inr e ↦ rw e (add_conflicts-IsAccounted d _ h)
      ]
  count_sides-IsAccounted d path bv lv (some b) none none h = h
  count_sides-IsAccounted d path bv lv (some b) none (some r) h =
      elim (Bool-cases (str_eq r.content b.content)) [
        | inl e ↦ rw e h
        | inr e ↦ rw e (add_conflicts-IsAccounted d _ h)
      ]
  count_sides-IsAccounted d path bv lv (some b) (some l) none h =
      elim (Bool-cases (is_empty (diff_json bv lv).keys)) [
        | inl e ↦ rw e (note_pull-IsAccounted d pull_delete path refl refl refl h)
        | inr e ↦ rw e (add_conflicts-IsAccounted d _ h)
      ]
  count_sides-IsAccounted d path bv lv (some b) (some l) (some r) h =
      elim (Option-cases (parse r.content)) [
        | inl e ↦ rw (count_sides, e) (add_op-IsAccounted d _ h)
        | inr (rv, e) ↦ rw (count_sides, e) (count_merge-IsAccounted d path bv lv rv h)
      ]

  count_values-IsAccounted :
      (d : Drift) (path : String) (bv lv : Option Value) (b l r : Option SnapshotEntry)
      → IsAccounted d
      → IsAccounted (count_values parse d path bv lv b l r)
  unfolding count_values
  count_values-IsAccounted d path (some bv) (some lv) b l r h =
      count_sides-IsAccounted _ path bv lv b l r (count_diff-IsAccounted d path bv lv h)
  count_values-IsAccounted d path (some bv) none b l r h = add_op-IsAccounted d _ h
  count_values-IsAccounted d path none lv b l r h = add_op-IsAccounted d _ h

  accumulate_merge_file-IsAccounted :
      (d : Drift) (path : String) (b l r : Option SnapshotEntry)
      → IsAccounted d
      → IsAccounted (accumulate_merge_file parse d path b l r)
  unfolding accumulate_merge_file
  accumulate_merge_file-IsAccounted d path b l r h =
      elim (Bool-cases (is_degraded parse b || is_degraded parse l || is_degraded parse r)) [
        | inl e ↦ rw e (add_op-IsAccounted d _ h)
        | inr e ↦ elim (Bool-cases (is_absent l && is_absent r)) [
          | inl gone ↦ rw (e, gone) h
          | inr there ↦
              rw (e, there)
                (count_values-IsAccounted d path (value_of parse b) (value_of parse l) b l r h)
        ]
      ]

  accumulate_paths-IsAccounted :
      (base local remote : SnapshotFiles) (paths : List String) (d : Drift)
      → IsAccounted d
      → IsAccounted (accumulate_paths parse d base local remote paths)
  unfolding accumulate_paths
  accumulate_paths-IsAccounted base local remote [] d h = h
  accumulate_paths-IsAccounted base local remote (path ∷ paths) d h =
      accumulate_paths-IsAccounted base local remote paths
        (accumulate_merge_file parse d path (lookup path base) (lookup path local)
          (lookup path remote))
        (accumulate_merge_file-IsAccounted d path _ _ _ h)

  pub category_drift-IsAccounted :
      (mode : String) (base local remote : SnapshotFiles)
      → IsAccounted (category_drift parse mode base local remote)
  unfolding category_drift
  category_drift-IsAccounted mode base local remote = elim (Bool-cases (str_eq mode "mirror")) [
    | inl mirrored ↦
        let (p, q, r, s, t, u) =
          count_ops-counters
            (record {
              to_push = 0;
              to_pull = 0;
              conflicts = 0;
              ops = compare_category base local remote;
              merge_conflicts = [];
              changed_keys = [];
            })
            (compare_category base local remote) in
        rw mirrored
          (rw (s, u) (omega (arith, p)), rw s (omega (arith, q)), rw (s, t) (omega (arith, r)))
    | inr merged ↦ rw merged (
        accumulate_paths-IsAccounted base local remote (union_paths base local remote) no_drift
          (refl, refl, refl))
  ]

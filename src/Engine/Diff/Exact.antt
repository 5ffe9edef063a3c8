-- ===== src/Engine/Diff/Exact.antt =====
-- The report of `diff_json` against the equality of the two values.
use homer_cli.Base.{
  ℕ, zero, suc, ◌+◌, ◌≤◌, ◌<◌, String, ◌≡◌, refl, sym, ◌∙◌, ap, true, false, ◌&&◌, ◌||◌, ◌↔◌, none,
  some, List, [], ◌∷◌, ◌++◌, inl, inr, arith, str_eq, str_eq_iff, Bool-cases, length, length-append,
  contains, sort_strings, insert_sorted, str_leb,
}
use mathlib.Core.Path.{subst}
use homer_cli.Json.{Value, null, bool, number, text, array, object, height}
use homer_cli.Json.Numbers.{FloatParser}
use homer_cli.Json.Equal.{deep_equal, same_slot}
use homer_cli.Json.Pointwise.{IsJson, deep_equal_pointwise}
use homer_cli.Json.Keys.{is_some}
use homer_cli.Engine.Merge.{Slot, child_slot, child_path, union_object_keys, is_object}
use homer_cli.Engine.Merge.Fuel.{height_slot, height_slot-pos, height-child_slot, object_is_deep}
use homer_cli.Engine.Merge.Keywise.{contains-union_object_keys}
use homer_cli.Engine.Merge.Slots.{SlotIsJson, SlotIsJson-child_slot}
use homer_cli.Engine.Diff.{
  DiffBuckets, no_buckets, append_buckets, walk_keys, walk_present, walk_diff, diff_json,
}

-- How many keys the buckets hold.
abbrev total : DiffBuckets → ℕ
total d = length d.changed + length d.added + length d.deleted

total-append_buckets : (a b : DiffBuckets) → total (append_buckets a b) ≡ total a + total b
total-append_buckets a b = omega (
  arith,
  length-append a.changed b.changed,
  length-append a.added b.added,
  length-append a.deleted b.deleted,
)

length-insert_sorted :
    (s : String) (ss : List String) → length (insert_sorted s ss) ≡ suc (length ss)
unfolding insert_sorted
length-insert_sorted s [] = refl
length-insert_sorted s (t ∷ ts) = elim (Bool-cases (str_leb s t)) [
  | inl first ↦ rw first refl
  | inr later ↦ rw later (ap suc (length-insert_sorted s ts))
]

length-sort_strings : (ss : List String) → length (sort_strings ss) ≡ length ss
unfolding sort_strings
length-sort_strings [] = refl
length-sort_strings (s ∷ ss) =
    omega (arith, length-insert_sorted s (sort_strings ss), length-sort_strings ss)

-- A loop that reports nothing reports nothing at any of its keys.
total_at :
    (walk : String → Slot → Slot → DiffBuckets) (path : String) (b l : Slot) (j : String)
    (keys : List String)
    → total (walk_keys walk path b l keys) ≡ 0
    → contains j keys ≡ true
    → total (walk (child_path path j) (child_slot b j) (child_slot l j)) ≡ 0
unfolding walk_keys contains
total_at walk path b l j [] e c = cc
total_at walk path b l j (key ∷ keys) e c =
    let here = walk (child_path path key) (child_slot b key) (child_slot l key) in
    let sum = total-append_buckets here (walk_keys walk path b l keys) in
    elim (Bool-cases (str_eq key j)) [
      | inl same ↦
          subst (λ k. total (walk (child_path path k) (child_slot b k) (child_slot l k)) ≡ 0)
            ((str_eq_iff key j).0 same) (omega arith)
      | inr other ↦ total_at walk path b l j keys (omega arith) (rw other at c)
    ]

both_missing : (b l : Slot) → (is_some b || (is_some l || false)) ≡ false → (b ≡ none) × (l ≡ none)
unfolding is_some
both_missing b l h = ground arith

one_ne_zero : ◌≡◌ {A = ℕ} 1 0 → ⊥
one_ne_zero h = omega arith

module _ ⦃fl : FloatParser⦄ where
  -- What is reported of two values that are no two equal ones, given what the walk of the children
  -- reports.
  same_of_walk_keys :
      (walk : String → Slot → Slot → DiffBuckets) (path : String) (b l : Slot)
      → ((p key : String)
          → total (walk p (child_slot b key) (child_slot l key)) ≡ 0
          → same_slot (child_slot b key) (child_slot l key) ≡ true)
      → total (walk_keys walk path b l (union_object_keys b l none)) ≡ 0
      → (key : String) → same_slot (child_slot b key) (child_slot l key) ≡ true
  unfolding is_some child_slot
  same_of_walk_keys walk path b l step e key =
      elim (Bool-cases (contains key (union_object_keys b l none))) [
        | inl visited ↦
            step (child_path path key) key
              (total_at walk path b l key (union_object_keys b l none) e visited)
        | inr missed ↦
            let (eb, el) =
              both_missing (child_slot b key) (child_slot l key)
                (sym (contains-union_object_keys key b l none) ∙ missed) in
            rw (eb, el) (unfold same_slot in refl)
      ]

  deep_equal_of_children :
      (b l : Value)
      → (is_object b && is_object l) ≡ true
      → IsJson b
      → IsJson l
      → ((key : String) → same_slot (child_slot (some b) key) (child_slot (some l) key) ≡ true)
      → deep_equal b l ≡ true
  unfolding child_slot IsJson
  deep_equal_of_children (object ks m) (object ks' m') o hb hl same =
      (deep_equal_pointwise ks ks' m m' hb hl).1 same
  deep_equal_of_children null l o hb hl same = cc
  deep_equal_of_children (bool _) l o hb hl same = cc
  deep_equal_of_children (number _) l o hb hl same = cc
  deep_equal_of_children (text _) l o hb hl same = cc
  deep_equal_of_children (array _) l o hb hl same = cc
  deep_equal_of_children (object ks m) _ o hb hl same = cc

  height-object : (b l : Value) → (is_object b && is_object l) ≡ true → 1 < height b
  height-object (object ks m) l h = object_is_deep ks m
  height-object null l h = cc
  height-object (bool _) l h = cc
  height-object (number _) l h = cc
  height-object (text _) l h = cc
  height-object (array _) l h = cc

  same_of_walk_present :
      (walk : String → Slot → Slot → DiffBuckets) (path : String) (b l : Value)
      → IsJson b
      → IsJson l
      → (1 < height b
          → (p key : String)
          → total (walk p (child_slot (some b) key) (child_slot (some l) key)) ≡ 0
          → same_slot (child_slot (some b) key) (child_slot (some l) key) ≡ true)
      → total (walk_present walk path b l) ≡ 0
      → deep_equal b l ≡ true
  unfolding walk_present
  same_of_walk_present walk path b l hb hl step e = elim (Bool-cases (deep_equal b l)) [
    | inl same ↦ same
    | inr differ ↦ elim (Bool-cases (is_object b && is_object l)) [
      | inl both ↦ deep_equal_of_children b l both hb hl (
          same_of_walk_keys walk path (some b) (some l) (step (height-object b l both))
            (rw (differ, both) at e))
      | inr leaf ↦ absurd (one_ne_zero (rw (differ, leaf) at e))
    ]
  ]

  same_of_walk_diff :
      (n : ℕ) (path : String) (b l : Slot)
      → SlotIsJson b
      → SlotIsJson l
      → height_slot b ≤ n
      → total (walk_diff n path b l) ≡ 0
      → same_slot b l ≡ true
  unfolding walk_diff same_slot
  same_of_walk_diff zero path b l hb hl h e = absurd (omega (arith, height_slot-pos b))
  same_of_walk_diff (suc n) path none none hb hl h e = refl
  same_of_walk_diff (suc n) path none (some l) hb hl h e = absurd (omega arith)
  same_of_walk_diff (suc n) path (some b) none hb hl h e = absurd (omega arith)
  same_of_walk_diff (suc n) path (some b) (some l) hb hl h e =
      same_of_walk_present (walk_diff n) path b l hb hl
        (λ deep p key.
          same_of_walk_diff n p (child_slot (some b) key) (child_slot (some l) key)
            (SlotIsJson-child_slot (some b) key hb) (SlotIsJson-child_slot (some l) key hl)
            (height-child_slot (some b) key n h (omega arith)))
        e

  equal_reports_nothing :
      (n : ℕ) (path : String) (b l : Value)
      → deep_equal b l ≡ true
      → walk_diff n path (some b) (some l) ≡ no_buckets
  unfolding walk_diff
  equal_reports_nothing zero path b l e = refl
  equal_reports_nothing (suc n) path b l e = rw e refl

  pub keys-diff_json :
      (b l : Value)
      → length (diff_json b l).keys ≡ total (walk_diff (height b) "" (some b) (some l))
  unfolding diff_json
  keys-diff_json b l =
      let d = walk_diff (height b) "" (some b) (some l) in
      omega (
        arith,
        length-sort_strings (d.changed ++ d.added ++ d.deleted),
        length-append (d.changed ++ d.added) d.deleted,
        length-append d.changed d.added,
        length-append d.changed (d.added ++ d.deleted),
        length-append d.added d.deleted,
      )

  -- The counts of changed, added and deleted keys add up to the number of reported keys.
  pub diff_json_counts :
      (b l : Value)
      → length (diff_json b l).keys
        ≡ (diff_json b l).changed + (diff_json b l).added + (diff_json b l).deleted
  diff_json_counts b l = unfold diff_json in keys-diff_json b l

  nil_of_length : (xs : List String) → length xs ≡ 0 → xs ≡ []
  nil_of_length [] e = refl
  nil_of_length (x ∷ xs) e = absurd (omega arith)

  -- For JSON values the report names no key exactly if the values are equal.
  pub diff_json_exact :
      (b l : Value) → IsJson b → IsJson l → ((diff_json b l).keys ≡ []) ↔ (deep_equal b l ≡ true)
  diff_json_exact b l hb hl = (
    λ e.
        unfold same_slot in
        same_of_walk_diff (height b) "" (some b) (some l) hb hl (omega arith)
          (sym (keys-diff_json b l) ∙ ap (λ (xs : List String). length xs) e),
    λ e.
        nil_of_length _ (keys-diff_json b l ∙ ap total (equal_reports_nothing (height b) "" b l e)),
  )

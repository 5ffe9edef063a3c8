-- ===== src/Engine/Diff.antt =====
-- `DiffJSON` of internal/engine/merge.go: what changed between two JSON values, by key.
pub mod Exact
use homer_cli.Base.{
  ℕ, zero, suc, ◌+◌, String, Bool, true, false, ◌&&◌, Option, none, some, List, [], ◌∷◌, ◌++◌,
  str_eq, if◌then◌else◌, sort_strings, length,
}
use homer_cli.Json.{Value, height}
use homer_cli.Json.Numbers.{FloatParser}
use homer_cli.Json.Equal.{deep_equal}
use homer_cli.Engine.Merge.{Slot, child_slot, child_path, union_object_keys, is_object}

-- `diffBuckets`
pub record DiffBuckets : Type 0 where
  pub changed : List String
  pub added : List String
  pub deleted : List String

pub record DiffResult : Type 0 where
  pub changed : ℕ
  pub added : ℕ
  pub deleted : ℕ
  pub keys : List String

abbrev pub no_buckets : DiffBuckets
no_buckets = record { changed = []; added = []; deleted = [] }

-- What a later call appends to the same buckets.
abbrev pub append_buckets : DiffBuckets → DiffBuckets → DiffBuckets
append_buckets a b = record {
  changed = a.changed ++ b.changed;
  added = a.added ++ b.added;
  deleted = a.deleted ++ b.deleted;
}

unfoldable pub label_of : String → String
label_of path = if str_eq path "" then "$" else path

-- The loop over the keys of two objects; `walk` is the recursive call.
unfoldable pub walk_keys :
    (String → Slot → Slot → DiffBuckets) → String → Slot → Slot → List String → DiffBuckets
unfolding child_slot child_path
walk_keys walk path base local [] = no_buckets
walk_keys walk path base local (key ∷ keys) =
    append_buckets (walk (child_path path key) (child_slot base key) (child_slot local key))
      (walk_keys walk path base local keys)

module _ ⦃fl : FloatParser⦄ where
  unfoldable pub walk_present :
      (String → Slot → Slot → DiffBuckets) → String → Value → Value → DiffBuckets
  unfolding walk_keys union_object_keys label_of
  walk_present walk path base local =
      if deep_equal base local
      then no_buckets
      else if is_object base && is_object local
      then walk_keys walk path (some base) (some local)
          (union_object_keys (some base) (some local) none)
      else record { changed = label_of path ∷ []; added = []; deleted = [] }

  -- `walkDiff`, with the buckets that the call appends. The recursion goes down the base value, so
  -- its height is fuel enough.
  unfoldable pub walk_diff : ℕ → String → Slot → Slot → DiffBuckets
  unfolding walk_present
  walk_diff zero path base local = no_buckets
  walk_diff (suc fuel) path none none = no_buckets
  walk_diff (suc fuel) path (some b) none = record {
    changed = [];
    added = [];
    deleted = label_of path ∷ [];
  }
  walk_diff (suc fuel) path none (some l) = record {
    changed = [];
    added = label_of path ∷ [];
    deleted = [];
  }
  walk_diff (suc fuel) path (some b) (some l) = walk_present (walk_diff fuel) path b l

  unfoldable pub diff_json : Value → Value → DiffResult
  unfolding walk_diff
  diff_json base local =
      let buckets = walk_diff (height base) "" (some base) (some local) in
      record {
        changed = length buckets.changed;
        added = length buckets.added;
        deleted = length buckets.deleted;
        keys = sort_strings (buckets.changed ++ buckets.added ++ buckets.deleted);
      }

-- ===== src/Engine/Merge.antt =====
-- internal/engine/merge.go: the three-way merge of JSON values.
pub mod Fuel
pub mod Keywise
pub mod Slots
pub mod Edits
pub mod Wellformed
pub mod Swap
pub mod Commute
pub mod Laws
pub mod Specified
use homer_cli.Base.{
  ℕ, zero, suc, String, Bool, true, false, ◌&&◌, ◌||◌, Option, none, some, List, [], ◌∷◌, ◌++◌,
  str_eq, if◌then◌else◌, append_new, ◌+++◌,
}
use homer_cli.Json.{
  Value, null, bool, number, text, array, object, Members, end, Object, value_at, set_value, height,
}
use homer_cli.Json.Numbers.{FloatParser}
use homer_cli.Json.Keys.{object_keys}
use homer_cli.Json.Equal.{deep_equal, same_slot}

pub data MergeReason : Type 0 where
  modify_vs_delete array_both_changed both_modified : MergeReason

-- A missing side is nil, which is also JSON null.
pub record MergeConflict : Type 0 where
  pub key_path : String
  pub reason : MergeReason
  pub base : Value
  pub local : Value
  pub remote : Value

pub data MergeStatus : Type 0 where
  clean conflicted : MergeStatus

pub record MergeResult : Type 0 where
  pub status : MergeStatus
  pub merged : Object
  pub conflicts : List MergeConflict

-- `valueSlot`: `none` is a slot without `has`.
abbrev pub Slot : Type 0
Slot = Option Value

-- A slot and the conflicts that the call appends to the caller's list.
abbrev pub Merged : Type 0
Merged = Slot × List MergeConflict

abbrev pub object_of : Value → Option Object
object_of (object ks m) = some (record { keys = ks; members = m })
object_of _ = none

abbrev pub is_object : Value → Bool
is_object (object ks m) = true
is_object _ = false

abbrev pub is_array : Value → Bool
is_array (array xs) = true
is_array _ = false

unfoldable pub child_slot : Slot → String → Slot
unfolding value_at
child_slot none key = none
child_slot (some (object ks m)) key = value_at key m
child_slot (some _) key = none

abbrev pub slot_keys : Slot → List String
slot_keys none = []
slot_keys (some (object ks m)) = object_keys (record { keys = ks; members = m })
slot_keys (some _) = []

unfoldable pub union_object_keys : Slot → Slot → Slot → List String
unfolding append_new object_keys
union_object_keys base local remote =
    append_new (append_new (append_new [] (slot_keys base)) (slot_keys local)) (slot_keys remote)

abbrev pub empty_object : Object
empty_object = record { keys = []; members = end }

unfoldable pub put_object : Object → String → Value → Object
unfolding value_at set_value
put_object o key v = record {
  keys = elim (value_at key o.members) [ none ↦ o.keys ++ key ∷ [] | some w ↦ o.keys ];
  members = set_value key v o.members;
}

unfoldable pub child_path : String → String → String
child_path path key = if str_eq path "" then key else path +++ "." +++ key

abbrev pub value_or_nil : Slot → Value
value_or_nil none = null
value_or_nil (some v) = v

-- `appendConflict`
unfoldable pub conflict_of : String → MergeReason → Slot → Slot → Slot → MergeConflict
conflict_of path reason base local remote = record {
  key_path = path;
  reason = reason;
  base = value_or_nil base;
  local = value_or_nil local;
  remote = value_or_nil remote;
}

abbrev pub put_resolved : Object → String → Slot → Object
put_resolved out key none = out
put_resolved out key (some v) = put_object out key v

-- The loop of `mergeObject`; `merge` is the call of `mergeSlot` on the three children.
unfoldable pub merge_keys :
    (String → Slot → Slot → Slot → Merged)
    → String
    → Slot
    → Slot
    → Slot
    → List String
    → Object
    → Object × List MergeConflict
unfolding child_slot put_object child_path
merge_keys merge path base local remote [] out = (out, [])
merge_keys merge path base local remote (key ∷ keys) out =
    let (resolved, conflicts) =
      merge (child_path path key) (child_slot base key) (child_slot local key)
        (child_slot remote key) in
    let (out', more) =
      merge_keys merge path base local remote keys (put_resolved out key resolved) in
    (out', conflicts ++ more)

unfoldable pub merge_object :
    (String → Slot → Slot → Slot → Merged) → String → Slot → Slot → Slot → Merged
unfolding merge_keys union_object_keys
merge_object merge path base local remote =
    let (out, conflicts) =
      merge_keys merge path base local remote (union_object_keys base local remote) empty_object in
    (some (object out.keys out.members), conflicts)

abbrev pub base_allows : Slot → Bool
base_allows none = true
base_allows (some b) = is_object b

-- The fallback of `MergeJSON` for a root that is no object.
abbrev pub root_object : Slot → Object
root_object (some (object ks m)) = record { keys = ks; members = m }
root_object _ = empty_object

abbrev pub status_of : List MergeConflict → MergeStatus
status_of [] = clean
status_of (c ∷ cs) = conflicted

module _ ⦃fl : FloatParser⦄ where
  -- `mergeSlot` where both sides are there and changed.
  unfoldable pub merge_present :
      (String → Slot → Slot → Slot → Merged) → String → Slot → Value → Value → Merged
  unfolding merge_object conflict_of
  merge_present merge path base local remote =
      if deep_equal local remote
      then (some local, [])
      else if is_object local && is_object remote && base_allows base
      then merge_object merge path base (some local) (some remote)
      else if is_array local || is_array remote
      then (some local, conflict_of path array_both_changed base (some local) (some remote) ∷ [])
      else (some local, conflict_of path both_modified base (some local) (some remote) ∷ [])

  -- `mergeSlot` where both sides changed relative to the base.
  unfoldable pub merge_changed :
      (String → Slot → Slot → Slot → Merged) → String → Slot → Slot → Slot → Merged
  unfolding merge_present
  merge_changed merge path base none none = (none, [])
  merge_changed merge path base (some l) (some r) = merge_present merge path base l r
  merge_changed merge path none (some l) none = (some l, [])
  merge_changed merge path none none (some r) = (some r, [])
  merge_changed merge path (some b) local remote =
      (local, conflict_of path modify_vs_delete (some b) local remote ∷ [])

  -- The body of `mergeSlot`; `merge` is its recursive call.
  unfoldable pub merge_body :
      (String → Slot → Slot → Slot → Merged) → String → Slot → Slot → Slot → Merged
  unfolding same_slot merge_changed
  merge_body merge path base local remote =
      if same_slot local base && same_slot remote base
      then (local, [])
      else if same_slot local base
      then (remote, [])
      else if same_slot remote base
      then (local, [])
      else merge_changed merge path base local remote

  -- `mergeSlot` on fuel. What it gives without fuel is an argument, so that nothing that holds for
  -- all of them can come from it.
  unfoldable pub merge_fuelled :
      (String → Slot → Slot → Slot → Merged) → ℕ → String → Slot → Slot → Slot → Merged
  unfolding merge_body
  merge_fuelled exhausted zero = exhausted
  merge_fuelled exhausted (suc fuel) = merge_body (merge_fuelled exhausted fuel)

  abbrev pub local_slot : String → Slot → Slot → Slot → Merged
  local_slot path base local remote = (local, [])

  -- `mergeSlot`. The recursion goes down the local value, so its height is fuel enough.
  unfoldable pub merge_slot : ℕ → String → Slot → Slot → Slot → Merged
  unfolding merge_fuelled
  merge_slot = merge_fuelled local_slot

  unfoldable pub merge_json : Value → Value → Value → MergeResult
  unfolding merge_slot
  merge_json base local remote =
      let (resolved, conflicts) =
        merge_slot (height local) "" (some base) (some local) (some remote) in
      record { status = status_of conflicts; merged = root_object resolved; conflicts = conflicts }

-- ===== src/Engine/Merge/Laws.antt =====
-- The laws of `merge_json` on JSON objects.
use homer_cli.Base.{ℕ, zero, suc, sym, ap, String, ◌≡◌, refl, true, some, List, [], ◌∷◌, arith}
use homer_cli.Json.{Value, object, Object, height}
use homer_cli.Json.Numbers.{FloatParser}
use homer_cli.Json.Equal.{same_slot}
use homer_cli.Json.Pointwise.{IsJson}
use homer_cli.Engine.Merge.{
  merge_fuelled, Slot, MergeConflict, MergeResult, merge_slot, merge_object, merge_json, clean,
  root_object, status_of,
}
use homer_cli.Engine.Merge.Slots.{slot_at}
use homer_cli.Engine.Merge.Edits.{local_edits_kept, remote_edits_kept, Outcome, merge_slot-Outcome}
use homer_cli.Engine.Merge.Swap.{merge_slot_swap_clean}
use homer_cli.Engine.Merge.Commute.{merge_slot_comm}

abbrev pub whole : Object → Slot
whole o = some (object o.keys o.members)

clean_of_status : (cs : List MergeConflict) → status_of cs ≡ clean → cs ≡ []
clean_of_status [] e = refl
clean_of_status (c ∷ cs) e = cc

module _ ⦃fl : FloatParser⦄ where
  -- The merge of two objects is an object, with or without conflicts.
  root_is_object :
      (n : ℕ) (path : String) (b : Slot) (l r : Object)
      → (merge_slot n path b (whole l) (whole r)).0
        ≡ whole (root_object (merge_slot n path b (whole l) (whole r)).0)
  root_is_object zero path b l r = unfold merge_slot merge_fuelled in refl
  root_is_object (suc n) path b l r = elim (merge_slot-Outcome n path b (whole l) (whole r)) [
    | Outcome.kept_local res _ ↦ rw res refl
    | Outcome.took_remote res _ x ↦ rw res refl
    | Outcome.merged_objects o x y z d ↦ rw o (unfold merge_object in refl)
  ]

  module _ (b : Value) (l r : Object) where
    abbrev pub local_value : Value
    local_value = object l.keys l.members

    abbrev pub remote_value : Value
    remote_value = object r.keys r.members

    abbrev pub result : MergeResult
    result = merge_json b local_value remote_value

    abbrev pub AreInputs : Type 0
    AreInputs = IsJson b × IsJson local_value × IsJson remote_value

    whole_result :
        whole result.merged ≡ (merge_slot (height local_value) "" (some b) (whole l) (whole r)).0
    unfolding merge_json
    whole_result = sym (root_is_object (height local_value) "" (some b) l r)

    clean_result :
        result.status ≡ clean
        → (merge_slot (height local_value) "" (some b) (whole l) (whole r)).1 ≡ []
    unfolding merge_json
    clean_result e = clean_of_status _ e

    status_of_clean :
        (merge_slot (height local_value) "" (some b) (whole l) (whole r)).1 ≡ []
        → result.status ≡ clean
    unfolding merge_json
    status_of_clean e = ap status_of e

    -- For JSON inputs with objects on both sides: at a path of keys where the remote side has what
    -- the base has, the merged object has what the local side has, even if there are conflicts
    -- elsewhere.
    pub merge_json_keeps_local :
        AreInputs
        → (p : List String) → same_slot (slot_at p (whole r)) (slot_at p (some b)) ≡ true
        → same_slot (slot_at p (whole result.merged)) (slot_at p (whole l)) ≡ true
    merge_json_keeps_local (hb, hl, hr) p e =
        rw whole_result
          (local_edits_kept (height local_value) "" (some b) (whole l) (whole r) p hb hl hr e)

    -- For JSON inputs with objects on both sides and a clean merge: at a path of keys where the
    -- local side has what the base has, the merged object has what the remote side has.
    pub merge_json_keeps_remote :
        AreInputs
        → result.status ≡ clean
        → (p : List String) → same_slot (slot_at p (whole l)) (slot_at p (some b)) ≡ true
        → same_slot (slot_at p (whole result.merged)) (slot_at p (whole r)) ≡ true
    merge_json_keeps_remote (hb, hl, hr) c p e = rw whole_result (
        remote_edits_kept (height local_value) "" (some b) (whole l) (whole r) p hb hl hr
          (omega arith) (clean_result c) e)

  -- Merging JSON objects without conflict does not depend on which side is local: with the sides
  -- exchanged there is no conflict either, and the merged objects are equal.
  pub merge_json_comm :
      (b : Value) (l r : Object)
      → AreInputs b l r
      → (result b l r).status ≡ clean
      → ((result b r l).status ≡ clean)
        × (same_slot (whole (result b l r).merged) (whole (result b r l).merged) ≡ true)
  merge_json_comm b l r (hb, hl, hr) c = (
    status_of_clean b r l (
        merge_slot_swap_clean (height (local_value b l r)) (height (local_value b r l)) "" ""
          (some b) (whole l) (whole r) hl hr (omega arith) (clean_result b l r c)),
    rw (whole_result b l r, whole_result b r l)
        (merge_slot_comm (height (local_value b l r)) (height (local_value b r l)) "" "" (some b)
          (whole l) (whole r) hb hl hr (omega arith) (omega arith) (clean_result b l r c)),
  )

-- ===== src/Engine/Merge/Wellformed.antt =====
-- Merges of JSON values: keys that stand twice and NaN.
use homer_cli.Base.{ℕ, zero, suc, String, none, some, List, [], ◌∷◌}
use homer_cli.Json.{Object}
use homer_cli.Json.Numbers.{FloatParser}
use homer_cli.Json.Pointwise.{IsJson, IsMap}
use homer_cli.Engine.Merge.{
  merge_fuelled, Slot, Merged, child_slot, child_path, put_object, put_resolved, merge_keys,
  merge_object, merge_slot, empty_object, union_object_keys,
}
use homer_cli.Json.SetValue.{IsMap-set_value}
use homer_cli.Engine.Merge.Slots.{SlotIsJson, SlotIsJson-child_slot}
use homer_cli.Engine.Merge.Edits.{Outcome, merge_slot-Outcome}

module _ ⦃fl : FloatParser⦄ where
  IsMap-put_resolved :
      (out : Object) (key : String) (o : Slot)
      → IsMap out.members
      → SlotIsJson o
      → IsMap (put_resolved out key o).members
  unfolding put_object
  IsMap-put_resolved out key none h ho = h
  IsMap-put_resolved out key (some v) h ho = IsMap-set_value key v out.members ho h

  IsMap-merge_keys :
      (f : String → Slot → Slot → Slot → Merged) (path : String) (b l r : Slot)
      → ((p key : String)
          → SlotIsJson (f p (child_slot b key) (child_slot l key) (child_slot r key)).0)
      → (keys : List String) (out : Object) → IsMap out.members
      → IsMap (merge_keys f path b l r keys out).0.members
  unfolding merge_keys
  IsMap-merge_keys f path b l r h [] out ho = ho
  IsMap-merge_keys f path b l r h (key ∷ keys) out ho =
      IsMap-merge_keys f path b l r h keys _
        (IsMap-put_resolved out key _ ho (h (child_path path key) key))

  SlotIsJson-merge_object :
      (f : String → Slot → Slot → Slot → Merged) (path : String) (b l r : Slot)
      → ((p key : String)
          → SlotIsJson (f p (child_slot b key) (child_slot l key) (child_slot r key)).0)
      → SlotIsJson (merge_object f path b l r).0
  unfolding merge_object IsJson
  SlotIsJson-merge_object f path b l r h =
      IsMap-merge_keys f path b l r h (union_object_keys b l r) empty_object tt

  -- From JSON on the three sides the merge makes JSON, whatever the fuel.
  pub SlotIsJson-merge_slot :
      (n : ℕ) (path : String) (b l r : Slot)
      → SlotIsJson b
      → SlotIsJson l
      → SlotIsJson r
      → SlotIsJson (merge_slot n path b l r).0
  SlotIsJson-merge_slot zero path b l r hb hl hr = unfold merge_slot merge_fuelled in hl
  SlotIsJson-merge_slot (suc n) path b l r hb hl hr = elim (merge_slot-Outcome n path b l r) [
    | Outcome.kept_local at_l _ ↦ rw at_l hl
    | Outcome.took_remote at_r _ x ↦ rw at_r hr
    | Outcome.merged_objects m x y z h ↦ rw m (
        SlotIsJson-merge_object (merge_slot n) path b l r λ p key.
          SlotIsJson-merge_slot n p (child_slot b key) (child_slot l key) (child_slot r key)
            (SlotIsJson-child_slot b key hb) (SlotIsJson-child_slot l key hl)
            (SlotIsJson-child_slot r key hr))
  ]

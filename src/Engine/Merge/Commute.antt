-- ===== src/Engine/Merge/Commute.antt =====
-- The merged values of a merge and of the merge with the sides exchanged.
use homer_cli.Base.{
  ℕ, zero, suc, ◌≤◌, String, ◌≡◌, sym, ap, true, false, [], ◌∙◌, ◌⊎◌, inl, inr, arith,
}
use homer_cli.Json.Numbers.{FloatParser}
use homer_cli.Json.Equal.{same_slot}
use homer_cli.Engine.Merge.{Slot, child_slot, child_path, merge_slot}
use homer_cli.Engine.Merge.Fuel.{height_slot, height_slot-pos, height-child_slot}
use homer_cli.Engine.Merge.Keywise.{merge_object_clean}
use homer_cli.Engine.Merge.Slots.{
  SlotIsJson, SlotIsJson-child_slot, same_slot_refl, same_slot_sym, same_slot_trans,
}
use homer_cli.Engine.Merge.Edits.{merge_slot_nothing, Outcome, merge_slot-Outcome}
use homer_cli.Engine.Merge.Wellformed.{SlotIsJson-merge_slot}
use homer_cli.Engine.Merge.Swap.{merge_slot_swap_clean, same_objects}

module _ ⦃fl : FloatParser⦄ where
  module _ (b l r : Slot) (hb : SlotIsJson b) (hl : SlotIsJson l) (hr : SlotIsJson r) where
    -- Why a clean merge kept the local side, and the same seen from the other side.
    both_kept :
        (same_slot l r ≡ true) ⊎ (same_slot r b ≡ true)
        → (same_slot r l ≡ true) ⊎ (same_slot l b ≡ true)
        → same_slot l r ≡ true
    both_kept (inl e) d = e
    both_kept (inr e) (inl d) = same_slot_sym r l hr hl d
    both_kept (inr e) (inr d) = same_slot_trans l b r hl hb hr d (same_slot_sym r b hr hb e)

    not_kept :
        same_slot r l ≡ false
        → same_slot r b ≡ false
        → ¬ ((same_slot l r ≡ true) ⊎ (same_slot r b ≡ true))
    not_kept x y (inl e) = let e' = same_slot_sym l r hl hr e in cc
    not_kept x y (inr e) = cc

  -- Exchanging the sides of a merge without conflict gives an equal value.
  pub merge_slot_comm :
      (n m : ℕ) (path path' : String) (b l r : Slot)
      → SlotIsJson b
      → SlotIsJson l
      → SlotIsJson r
      → height_slot l ≤ n
      → height_slot r ≤ m
      → (merge_slot n path b l r).1 ≡ []
      → same_slot (merge_slot n path b l r).0 (merge_slot m path' b r l).0 ≡ true
  merge_slot_comm zero m path path' b l r hb hl hr h k c = absurd (omega (arith, height_slot-pos l))
  merge_slot_comm (suc n) zero path path' b l r hb hl hr h k c =
      absurd (omega (arith, height_slot-pos r))
  merge_slot_comm (suc n) (suc m) path path' b l r hb hl hr h k c =
      let c' = merge_slot_swap_clean (suc n) (suc m) path path' b l r hl hr h c in
      elim (merge_slot-Outcome n path b l r) [
        | Outcome.kept_local res agree ↦ rw res (elim (merge_slot-Outcome m path' b r l) [
          | Outcome.kept_local res' agree' ↦
              rw res' (both_kept b l r hb hl hr (agree c) (agree' c'))
          | Outcome.took_remote res' _ y ↦ rw res' (same_slot_refl l hl)
          | Outcome.merged_objects o y x z d ↦ absurd (not_kept b l r hb hl hr z y (agree c))
        ])
        | Outcome.took_remote res _ x ↦ rw res (elim (merge_slot-Outcome m path' b r l) [
          | Outcome.kept_local res' agree' ↦ rw res' (same_slot_refl r hr)
          | Outcome.took_remote res' _ y ↦
              rw res' (same_slot_trans r b l hr hb hl y (same_slot_sym l b hl hb x))
          | Outcome.merged_objects o y x' z d ↦ cc
        ])
        | Outcome.merged_objects o x y z d ↦ elim (merge_slot-Outcome m path' b r l) [
          | Outcome.kept_local res' agree' ↦ absurd (not_kept b r l hb hr hl z x (agree' c'))
          | Outcome.took_remote res' _ y' ↦ cc
          | Outcome.merged_objects o' y' x' z' d' ↦
              rw (o, o')
                (same_objects (merge_slot n) (merge_slot m) path path' b l r (merge_slot_nothing n)
                  (merge_slot_nothing m)
                  (rw o at (SlotIsJson-merge_slot (suc n) path b l r hb hl hr))
                  (rw o' at (SlotIsJson-merge_slot (suc m) path' b r l hb hr hl))
                  λ key.
                    merge_slot_comm n m (child_path path key) (child_path path' key)
                      (child_slot b key) (child_slot l key) (child_slot r key)
                      (SlotIsJson-child_slot b key hb) (SlotIsJson-child_slot l key hl)
                      (SlotIsJson-child_slot r key hr) (height-child_slot l key n h (omega arith))
                      (height-child_slot r key m k (omega arith))
                      ((merge_object_clean (merge_slot n) path b l r (merge_slot_nothing n)).0
                        (ap (λ w. w.1) (sym o) ∙ c) key))
        ]
      ]

-- ===== src/Engine/Merge/Swap.antt =====
-- The merge with the two sides exchanged.
use homer_cli.Base.{
  ℕ, zero, suc, ◌≤◌, ◌<◌, String, ◌≡◌, refl, Bool, true, false, ◌&&◌, ◌||◌, none, some, [], ◌∷◌,
  inl, inr, arith, Bool-cases, if◌then◌else◌, Bool-ext,
}
use homer_cli.Json.{Value}
use homer_cli.Json.Numbers.{FloatParser}
use homer_cli.Json.Equal.{deep_equal, same_slot}
use homer_cli.Json.Pointwise.{IsJson, deep_equal_pointwise}
use homer_cli.Json.Equivalence.{deep_equal_sym}
use homer_cli.Engine.Merge.{
  merge_fuelled, merge_body, Slot, Merged, MergeConflict, child_slot, merge_object, merge_present,
  merge_changed, merge_slot, is_object, is_array, base_allows,
}
use homer_cli.Engine.Merge.Fuel.{height_slot, height_slot-pos, height-child_slot}
use homer_cli.Engine.Merge.Keywise.{at_key, MergesNothing, merge_object_clean, child-merge_object}
use homer_cli.Engine.Merge.Slots.{SlotIsJson, SlotIsJson-child_slot}
use homer_cli.Engine.Merge.Edits.{merge_slot_nothing, height-object}

module _ ⦃fl : FloatParser⦄ where
  deep_equal_swap : (v w : Value) → IsJson v → IsJson w → deep_equal v w ≡ deep_equal w v
  deep_equal_swap v w h k = Bool-ext _ _ (deep_equal_sym v w h k) (deep_equal_sym w v k h)

  and_swap : (x y z : Bool) → (y && x && z) ≡ (x && y && z)
  and_swap x y z = ground arith

  conflict_left :
      (arrays : Bool) (s : Slot) (c d : MergeConflict)
      → (let m : Merged = if arrays then (s, c ∷ []) else (s, d ∷ []) in m.1) ≡ []
      → ⊥
  conflict_left true s c d e = cc
  conflict_left false s c d e = cc

  module _ (f g : String → Slot → Slot → Slot → Merged) (path path' : String) (b l r : Slot)
      (nothing_f : MergesNothing f path b l r) (nothing_g : MergesNothing g path' b r l)
      (step : (key p q : String)
        → 1 < height_slot l
        → (f p (child_slot b key) (child_slot l key) (child_slot r key)).1 ≡ []
        → (g q (child_slot b key) (child_slot r key) (child_slot l key)).1 ≡ []) where
    merge_object_swap :
        1 < height_slot l → (merge_object f path b l r).1 ≡ [] → (merge_object g path' b r l).1 ≡ []
    merge_object_swap h e =
        (merge_object_clean g path' b r l nothing_g).1
          λ key. step key _ _ h ((merge_object_clean f path b l r nothing_f).0 e key)

  module _ (f g : String → Slot → Slot → Slot → Merged) (path path' : String) where
    -- What the merge of two objects has to offer for the lemma below.
    abbrev Swaps : Slot → Slot → Slot → Type 0
    Swaps b l r =
        1 < height_slot l → (merge_object f path b l r).1 ≡ [] → (merge_object g path' b r l).1 ≡ []

    merge_present_swap :
        (b : Slot) (l r : Value)
        → IsJson l
        → IsJson r
        → Swaps b (some l) (some r)
        → (merge_present f path b l r).1 ≡ []
        → (merge_present g path' b r l).1 ≡ []
    unfolding merge_present
    merge_present_swap b l r hl hr objects e = elim (Bool-cases (deep_equal l r)) [
      | inl same ↦ rw (← deep_equal_swap l r hl hr) (rw same refl)
      | inr differ ↦ rw (← deep_equal_swap l r hl hr) (
          rw differ (elim (Bool-cases (is_object l && is_object r && base_allows b)) [
            | inl both ↦ rw (and_swap (is_object l) (is_object r) (base_allows b)) (
                rw both (objects (height-object l r (base_allows b) both) (rw (differ, both) at e)))
            | inr other ↦
                absurd (conflict_left (is_array l || is_array r) _ _ _ (rw (differ, other) at e))
          ]))
    ]

    merge_changed_swap :
        (b l r : Slot)
        → SlotIsJson l
        → SlotIsJson r
        → Swaps b l r
        → (merge_changed f path b l r).1 ≡ []
        → (merge_changed g path' b r l).1 ≡ []
    unfolding merge_changed
    merge_changed_swap b (some l) (some r) hl hr objects e =
        merge_present_swap b l r hl hr objects e
    merge_changed_swap none none none hl hr objects e = refl
    merge_changed_swap (some b) none none hl hr objects e = refl
    merge_changed_swap none (some l) none hl hr objects e = refl
    merge_changed_swap none none (some r) hl hr objects e = refl
    merge_changed_swap (some b) none (some r) hl hr objects e = cc
    merge_changed_swap (some b) (some l) none hl hr objects e = cc

  -- A merge without conflict has none with the sides exchanged either.
  pub merge_slot_swap_clean :
      (n m : ℕ) (path path' : String) (b l r : Slot)
      → SlotIsJson l
      → SlotIsJson r
      → height_slot l ≤ n
      → (merge_slot n path b l r).1 ≡ []
      → (merge_slot m path' b r l).1 ≡ []
  unfolding merge_slot merge_fuelled merge_body
  merge_slot_swap_clean n zero path path' b l r hl hr h e = refl
  merge_slot_swap_clean zero (suc m) path path' b l r hl hr h e =
      absurd (omega (arith, height_slot-pos l))
  merge_slot_swap_clean (suc n) (suc m) path path' b l r hl hr h e =
      elim (Bool-cases (same_slot l b)) [
        | inl x ↦ elim (Bool-cases (same_slot r b)) [
          | inl y ↦ rw (x, y) refl
          | inr y ↦ rw (x, y) refl
        ]
        | inr x ↦ elim (Bool-cases (same_slot r b)) [
          | inl y ↦ rw (x, y) refl
          | inr y ↦
              rw (x, y)
                (merge_changed_swap (merge_slot n) (merge_slot m) path path' b l r hl hr
                  (merge_object_swap (merge_slot n) (merge_slot m) path path' b l r
                    (merge_slot_nothing n) (merge_slot_nothing m)
                    λ key p q deep clean.
                      merge_slot_swap_clean n m p q (child_slot b key) (child_slot l key)
                        (child_slot r key) (SlotIsJson-child_slot l key hl)
                        (SlotIsJson-child_slot r key hr) (height-child_slot l key n h (omega arith))
                        clean)
                  (rw (x, y) at e))
        ]
      ]

  same_slot_of_children :
      (f g : String → Slot → Slot → Slot → Merged) (path path' : String) (b l r : Slot)
      → SlotIsJson (merge_object f path b l r).0
      → SlotIsJson (merge_object g path' b r l).0
      → ((key : String)
          → same_slot
              (child_slot (merge_object f path b l r).0 key)
              (child_slot (merge_object g path' b r l).0 key)
            ≡ true)
      → same_slot (merge_object f path b l r).0 (merge_object g path' b r l).0 ≡ true
  unfolding merge_object child_slot same_slot IsJson
  same_slot_of_children f g path path' b l r jf jg same =
      (deep_equal_pointwise _ _ _ _ jf jg).1 same

  pub same_objects :
      (f g : String → Slot → Slot → Slot → Merged) (path path' : String) (b l r : Slot)
      → MergesNothing f path b l r
      → MergesNothing g path' b r l
      → SlotIsJson (merge_object f path b l r).0
      → SlotIsJson (merge_object g path' b r l).0
      → ((key : String) → same_slot (at_key f path b l r key).0 (at_key g path' b r l key).0 ≡ true)
      → same_slot (merge_object f path b l r).0 (merge_object g path' b r l).0 ≡ true
  same_objects f g path path' b l r nf ng jf jg same =
      same_slot_of_children f g path path' b l r jf jg λ key.
        rw (child-merge_object f path b l r key nf, child-merge_object g path' b r l key ng)
          (same key)

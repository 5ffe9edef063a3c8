-- ===== src/Engine/Merge/Edits.antt =====
-- What becomes of the edits of the two sides, at every depth.
use homer_cli.Base.{
  ℕ, zero, suc, ◌≤◌, String, ◌≡◌, refl, sym, ap, Bool, true, false, ◌&&◌, ◌||◌, none, some, List,
  [], ◌∷◌, ◌<◌, ◌∙◌, ◌⊎◌, inl, inr, arith, Bool-cases,
}
use homer_cli.Json.{Value, null, bool, number, text, array, object, height}
use homer_cli.Json.Numbers.{FloatParser}
use homer_cli.Json.Equal.{deep_equal, same_slot}
use homer_cli.Engine.Merge.{
  merge_fuelled, merge_body, Slot, Merged, child_slot, child_path, merge_object, merge_present,
  merge_changed, merge_slot, is_object, is_array, base_allows,
}
use homer_cli.Engine.Merge.Fuel.{height_slot, height_slot-pos, height-child_slot, object_is_deep}
use homer_cli.Engine.Merge.Keywise.{child-merge_object, merge_object_clean}
use homer_cli.Engine.Merge.Slots.{
  slot_at, SlotIsJson, same_slot_refl, same_slot_sym, same_slot_trans, SlotIsJson-child_slot,
  SlotIsJson-slot_at, same_slot-slot_at,
}

module _ ⦃fl : FloatParser⦄ where
  pub merge_slot_nothing : (n : ℕ) (p : String) → merge_slot n p none none none ≡ (none, [])
  unfolding merge_slot merge_fuelled merge_body
  merge_slot_nothing zero p = refl
  merge_slot_nothing (suc n) p = refl

  -- The ways in which a call with fuel ends; `f` is the recursive call.
  pub data Outcome (f : String → Slot → Slot → Slot → Merged) (path : String) (b l r : Slot)
      (m : Merged) : Type 0 where
    kept_local :
        m.0 ≡ l
        → (m.1 ≡ [] → (same_slot l r ≡ true) ⊎ (same_slot r b ≡ true))
        → Outcome f path b l r m
    took_remote : m.0 ≡ r → m.1 ≡ [] → same_slot l b ≡ true → Outcome f path b l r m
    merged_objects :
        m ≡ merge_object f path b l r
        → same_slot l b ≡ false
        → same_slot r b ≡ false
        → same_slot l r ≡ false
        → 1 < height_slot l
        → Outcome f path b l r m

  pub height-object :
      (l r : Value) (allowed : Bool) → (is_object l && is_object r && allowed) ≡ true → 1 < height l
  height-object (object ks m) r allowed h = object_is_deep ks m
  height-object null r allowed h = cc
  height-object (bool b) r allowed h = cc
  height-object (number s) r allowed h = cc
  height-object (text s) r allowed h = cc
  height-object (array xs) r allowed h = cc

  -- A path on which two slots agree with the base, one by what is known of the whole.
  through_base :
      (p : List String) (s b t : Slot)
      → SlotIsJson s
      → SlotIsJson b
      → SlotIsJson t
      → same_slot (slot_at p s) (slot_at p b) ≡ true
      → same_slot t b ≡ true
      → same_slot (slot_at p s) (slot_at p t) ≡ true
  through_base p s b t hs hb ht e x =
      same_slot_trans (slot_at p s) (slot_at p b) (slot_at p t) (SlotIsJson-slot_at p s hs)
        (SlotIsJson-slot_at p b hb) (SlotIsJson-slot_at p t ht) e
        (same_slot-slot_at p b t hb ht (same_slot_sym t b ht hb x))

  module _ (f : String → Slot → Slot → Slot → Merged) (path : String) where
    merge_present-Outcome :
        (b : Slot) (l r : Value)
        → same_slot (some l) b ≡ false
        → same_slot (some r) b ≡ false
        → Outcome f path b (some l) (some r) (merge_present f path b l r)
    unfolding merge_present same_slot
    merge_present-Outcome b l r x y = elim (Bool-cases (deep_equal l r)) [
      | inl same ↦ rw same (Outcome.kept_local refl (λ e. inl same))
      | inr differ ↦ rw differ (elim (Bool-cases (is_object l && is_object r && base_allows b)) [
        | inl objects ↦
            rw objects
              (Outcome.merged_objects refl x y differ (height-object l r (base_allows b) objects))
        | inr other ↦ rw other (elim (Bool-cases (is_array l || is_array r)) [
          | inl arrays ↦ rw arrays (Outcome.kept_local refl (λ e. cc))
          | inr scalars ↦ rw scalars (Outcome.kept_local refl (λ e. cc))
        ])
      ])
    ]

    merge_changed-Outcome :
        (b l r : Slot)
        → same_slot l b ≡ false
        → same_slot r b ≡ false
        → Outcome f path b l r (merge_changed f path b l r)
    unfolding merge_changed same_slot
    merge_changed-Outcome b (some l) (some r) x y = merge_present-Outcome b l r x y
    merge_changed-Outcome none none none x y = Outcome.kept_local refl (λ e. inl refl)
    merge_changed-Outcome (some b) none none x y = Outcome.kept_local refl (λ e. inl refl)
    merge_changed-Outcome none (some l) none x y = Outcome.kept_local refl (λ e. inr refl)
    merge_changed-Outcome none none (some r) x y = Outcome.took_remote refl refl refl
    merge_changed-Outcome (some b) none (some r) x y = Outcome.kept_local refl (λ e. cc)
    merge_changed-Outcome (some b) (some l) none x y = Outcome.kept_local refl (λ e. cc)

  pub merge_slot-Outcome :
      (n : ℕ) (path : String) (b l r : Slot)
      → Outcome (merge_slot n) path b l r (merge_slot (suc n) path b l r)
  unfolding merge_slot merge_fuelled merge_body
  merge_slot-Outcome n path b l r = elim (Bool-cases (same_slot l b)) [
    | inl x ↦ rw x (elim (Bool-cases (same_slot r b)) [
      | inl y ↦ rw y (Outcome.kept_local refl (λ e. inr y))
      | inr y ↦ rw y (Outcome.took_remote refl refl x)
    ])
    | inr x ↦ rw x (elim (Bool-cases (same_slot r b)) [
      | inl y ↦ rw y (Outcome.kept_local refl (λ e. inr y))
      | inr y ↦ rw y (merge_changed-Outcome (merge_slot n) path b l r x y)
    ])
  ]

  -- At a path where the remote side has what the base has, the merge has what the local side has:
  -- whatever the fuel and the conflicts, no local edit is lost.
  pub local_edits_kept :
      (n : ℕ) (path : String) (b l r : Slot) (p : List String)
      → SlotIsJson b
      → SlotIsJson l
      → SlotIsJson r
      → same_slot (slot_at p r) (slot_at p b) ≡ true
      → same_slot (slot_at p (merge_slot n path b l r).0) (slot_at p l) ≡ true
  unfolding slot_at
  local_edits_kept zero path b l r p hb hl hr e =
      unfold merge_slot merge_fuelled in same_slot_refl (slot_at p l) (SlotIsJson-slot_at p l hl)
  local_edits_kept (suc n) path b l r [] hb hl hr e = elim (merge_slot-Outcome n path b l r) [
    | kept_local at_l _ ↦ rw at_l (same_slot_refl l hl)
    | took_remote at_r _ x ↦ rw at_r (same_slot_trans r b l hr hb hl e (same_slot_sym l b hl hb x))
    | merged_objects m x y z h ↦ cc
  ]
  local_edits_kept (suc n) path b l r (k ∷ ks) hb hl hr e = elim (merge_slot-Outcome n path b l r) [
    | kept_local at_l _ ↦ rw at_l (same_slot_refl _ (SlotIsJson-slot_at (k ∷ ks) l hl))
    | took_remote at_r _ x ↦ rw at_r (through_base (k ∷ ks) r b l hr hb hl e x)
    | merged_objects m x y z h ↦
        rw (m, child-merge_object (merge_slot n) path b l r k (merge_slot_nothing n))
          (local_edits_kept n (child_path path k) (child_slot b k) (child_slot l k) (child_slot r k)
            ks (SlotIsJson-child_slot b k hb) (SlotIsJson-child_slot l k hl)
            (SlotIsJson-child_slot r k hr) e)
  ]

  -- At a path where the local side has what the base has, a merge with no conflict has what the
  -- remote side has, given the fuel that the local side needs.
  pub remote_edits_kept :
      (n : ℕ) (path : String) (b l r : Slot) (p : List String)
      → SlotIsJson b
      → SlotIsJson l
      → SlotIsJson r
      → height_slot l ≤ n
      → (merge_slot n path b l r).1 ≡ []
      → same_slot (slot_at p l) (slot_at p b) ≡ true
      → same_slot (slot_at p (merge_slot n path b l r).0) (slot_at p r) ≡ true
  unfolding slot_at
  remote_edits_kept zero path b l r p hb hl hr h c e = absurd (omega (arith, height_slot-pos l))
  remote_edits_kept (suc n) path b l r [] hb hl hr h c e = elim (merge_slot-Outcome n path b l r) [
    | kept_local at_l agree ↦ rw at_l (elim (agree c) [
      | inl same ↦ same
      | inr x ↦ same_slot_trans l b r hl hb hr e (same_slot_sym r b hr hb x)
    ])
    | took_remote at_r _ x ↦ rw at_r (same_slot_refl r hr)
    | merged_objects m x y z h ↦ cc
  ]
  remote_edits_kept (suc n) path b l r (k ∷ ks) hb hl hr h c e =
      elim (merge_slot-Outcome n path b l r) [
        | kept_local at_l agree ↦ rw at_l (elim (agree c) [
          | inl same ↦ same_slot-slot_at (k ∷ ks) l r hl hr same
          | inr x ↦ through_base (k ∷ ks) l b r hl hb hr e x
        ])
        | took_remote at_r _ x ↦ rw at_r (same_slot_refl _ (SlotIsJson-slot_at (k ∷ ks) r hr))
        | merged_objects m x y z deep ↦
            let clean =
              (merge_object_clean (merge_slot n) path b l r (merge_slot_nothing n)).0
                (ap (λ q. q.1) (sym m) ∙ c) k in
            rw (m, child-merge_object (merge_slot n) path b l r k (merge_slot_nothing n))
              (remote_edits_kept n (child_path path k) (child_slot b k) (child_slot l k)
                (child_slot r k) ks (SlotIsJson-child_slot b k hb) (SlotIsJson-child_slot l k hl)
                (SlotIsJson-child_slot r k hr) (height-child_slot l k n h (omega arith)) clean e)
      ]

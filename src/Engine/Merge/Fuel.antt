-- ===== src/Engine/Merge/Fuel.antt =====
-- The fuel of `merge_slot` and the height of the local value.
use homer_cli.Base.{
  ℕ, zero, suc, ◌≤◌, ◌<◌, String, ◌≡◌, refl, none, some, List, [], ◌∷◌, arith, str_eq, Bool-cases,
  inl, inr,
}
use homer_cli.Json.{Value, object, Members, end, member, value_at, height, height_members}
use homer_cli.Json.Numbers.{FloatParser}
use homer_cli.Engine.Merge.{
  Slot, Merged, Object, child_slot, child_path, put_resolved, merge_keys, merge_object,
  merge_changed, merge_body, merge_fuelled, union_object_keys, empty_object,
}

abbrev pub height_slot : Slot → ℕ
height_slot none = 1
height_slot (some v) = height v

height-pos : (v : Value) → 1 ≤ height v
unfolding height
height-pos (object ks m) = omega arith
height-pos _ = omega arith

height_members-pos : (m : Members) → 1 ≤ height_members m
unfolding height
height_members-pos end = omega arith
height_members-pos (member k v m) = omega (arith, height_members-pos m)

height-value_at : (key : String) (m : Members) → height_slot (value_at key m) ≤ height_members m
unfolding height value_at
height-value_at key end = omega arith
height-value_at key (member k v m) = elim (Bool-cases (str_eq k key)) [
  | inl same ↦ rw same (omega arith)
  | inr other ↦ rw other (omega (arith, height-value_at key m))
]

pub object_is_deep : (ks : List String) (m : Members) → 1 < height (object ks m)
unfolding height
object_is_deep ks m = omega (arith, height_members-pos m)

pub height_slot-pos : (s : Slot) → 1 ≤ height_slot s
height_slot-pos none = omega arith
height_slot-pos (some v) = height-pos v

pub height-child_slot :
    (s : Slot) (key : String) (n : ℕ)
    → height_slot s ≤ suc n
    → 1 ≤ n
    → height_slot (child_slot s key) ≤ n
unfolding height child_slot
height-child_slot none key n h p = omega arith
height-child_slot (some (object ks m)) key n h p = omega (arith, height-value_at key m)
height-child_slot (some _) key n h p = omega arith

-- Two recursive calls that agree on the children give the same merge of an object.
merge_keys_congr :
    (f g : String → Slot → Slot → Slot → Merged) (path : String) (b l r : Slot)
    → ((p key : String)
        → f p (child_slot b key) (child_slot l key) (child_slot r key)
          ≡ g p (child_slot b key) (child_slot l key) (child_slot r key))
    → (keys : List String) (out : Object)
    → merge_keys f path b l r keys out ≡ merge_keys g path b l r keys out
unfolding merge_keys
merge_keys_congr f g path b l r h [] out = refl
merge_keys_congr f g path b l r h (key ∷ keys) out = rw (h (child_path path key) key) (
    rw
      (merge_keys_congr f g path b l r h keys (
        put_resolved out key
          (g (child_path path key) (child_slot b key) (child_slot l key) (child_slot r key)).0))
      refl)

module _ ⦃fl : FloatParser⦄ where
  merge_changed_congr :
      (f g : String → Slot → Slot → Slot → Merged) (path : String) (b l r : Slot)
      → ((p key : String)
          → f p (child_slot b key) (child_slot l key) (child_slot r key)
            ≡ g p (child_slot b key) (child_slot l key) (child_slot r key))
      → merge_changed f path b l r ≡ merge_changed g path b l r
  unfolding merge_changed merge_object
  merge_changed_congr f g path b none none h = refl
  merge_changed_congr f g path b (some l) (some r) h =
      rw
        (merge_keys_congr f g path b (some l) (some r) h (union_object_keys b (some l) (some r))
          empty_object)
        refl
  merge_changed_congr f g path none (some l) none h = refl
  merge_changed_congr f g path none none (some r) h = refl
  merge_changed_congr f g path (some b) none (some r) h = refl
  merge_changed_congr f g path (some b) (some l) none h = refl

  -- Without an object on the local side there is no recursive call.
  merge_changed_leaf :
      (f g : String → Slot → Slot → Slot → Merged) (path : String) (b l r : Slot)
      → height_slot l ≤ 1
      → merge_changed f path b l r ≡ merge_changed g path b l r
  unfolding merge_changed height
  merge_changed_leaf f g path b (some (object ks m)) r h =
      absurd (omega (arith, height_members-pos m))
  merge_changed_leaf f g path b none none h = refl
  merge_changed_leaf f g path b (some l) (some r) h = ground arith
  merge_changed_leaf f g path none (some l) none h = refl
  merge_changed_leaf f g path none none (some r) h = refl
  merge_changed_leaf f g path (some b) none (some r) h = refl
  merge_changed_leaf f g path (some b) (some l) none h = refl

  merge_body_congr :
      (f g : String → Slot → Slot → Slot → Merged) (path : String) (b l r : Slot)
      → ((p key : String)
          → f p (child_slot b key) (child_slot l key) (child_slot r key)
            ≡ g p (child_slot b key) (child_slot l key) (child_slot r key))
      → merge_body f path b l r ≡ merge_body g path b l r
  unfolding merge_body
  merge_body_congr f g path b l r h = rw (merge_changed_congr f g path b l r h) refl

  merge_body_leaf :
      (f g : String → Slot → Slot → Slot → Merged) (path : String) (b l r : Slot)
      → height_slot l ≤ 1
      → merge_body f path b l r ≡ merge_body g path b l r
  unfolding merge_body
  merge_body_leaf f g path b l r h = rw (merge_changed_leaf f g path b l r h) refl

  -- What there is without fuel plays no part from the height of the local side on.
  pub merge_fuelled_enough :
      (f g : String → Slot → Slot → Slot → Merged) (n m : ℕ) (path : String) (b l r : Slot)
      → height_slot l ≤ n
      → height_slot l ≤ m
      → merge_fuelled f n path b l r ≡ merge_fuelled g m path b l r
  unfolding merge_fuelled
  merge_fuelled_enough f g zero m path b l r h k = absurd (omega (arith, height_slot-pos l))
  merge_fuelled_enough f g (suc n) zero path b l r h k = absurd (omega (arith, height_slot-pos l))
  merge_fuelled_enough f g (suc zero) (suc m) path b l r h k =
      merge_body_leaf f (merge_fuelled g m) path b l r h
  merge_fuelled_enough f g (suc (suc n)) (suc zero) path b l r h k =
      merge_body_leaf (merge_fuelled f (suc n)) g path b l r k
  merge_fuelled_enough f g (suc (suc n)) (suc (suc m)) path b l r h k =
      merge_body_congr (merge_fuelled f (suc n)) (merge_fuelled g (suc m)) path b l r λ p key.
        merge_fuelled_enough f g (suc n) (suc m) p (child_slot b key) (child_slot l key)
          (child_slot r key) (height-child_slot l key (suc n) h (omega arith))
          (height-child_slot l key (suc m) k (omega arith))

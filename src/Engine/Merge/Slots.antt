-- ===== src/Engine/Merge/Slots.antt =====
-- Slots at paths of keys, and equality of slots.
use homer_cli.Base.{String, ◌≡◌, refl, true, none, some, List, [], ◌∷◌}
use homer_cli.Json.{null, bool, number, text, array, object, value_at}
use homer_cli.Json.Numbers.{FloatParser}
use homer_cli.Json.Equal.{deep_equal, same_slot}
use homer_cli.Json.Pointwise.{IsJson, deep_equal_pointwise, IsJson-value_at}
use homer_cli.Json.Equivalence.{deep_equal_refl, deep_equal_sym, deep_equal_trans}
use homer_cli.Engine.Merge.{Slot, child_slot}

-- The slot at a path of keys.
unfoldable pub slot_at : List String → Slot → Slot
slot_at [] s = s
slot_at (k ∷ ks) s = slot_at ks (child_slot s k)

module _ ⦃fl : FloatParser⦄ where
  abbrev pub SlotIsJson : Slot → Type 0
  SlotIsJson none = Unit {0}
  SlotIsJson (some v) = IsJson v

  pub same_slot_refl : (s : Slot) → SlotIsJson s → same_slot s s ≡ true
  unfolding same_slot
  same_slot_refl none h = refl
  same_slot_refl (some v) h = deep_equal_refl v h

  pub same_slot_sym :
      (s t : Slot) → SlotIsJson s → SlotIsJson t → same_slot s t ≡ true → same_slot t s ≡ true
  unfolding same_slot
  same_slot_sym none none h k e = e
  same_slot_sym (some v) (some w) h k e = deep_equal_sym v w h k e
  same_slot_sym none (some w) h k e = e
  same_slot_sym (some v) none h k e = e

  pub same_slot_trans :
      (s t u : Slot)
      → SlotIsJson s
      → SlotIsJson t
      → SlotIsJson u
      → same_slot s t ≡ true
      → same_slot t u ≡ true
      → same_slot s u ≡ true
  unfolding same_slot
  same_slot_trans none none u h k j d e = e
  same_slot_trans (some v) (some w) (some x) h k j d e = deep_equal_trans v w x h k j d e
  same_slot_trans (some v) (some w) none h k j d e = e
  same_slot_trans none (some w) u h k j d e = cc
  same_slot_trans (some v) none u h k j d e = cc

  pub SlotIsJson-child_slot :
      (s : Slot) (key : String) → SlotIsJson s → SlotIsJson (child_slot s key)
  unfolding child_slot IsJson
  SlotIsJson-child_slot none key h = tt
  SlotIsJson-child_slot (some (object ks m)) key h = json (value_at key m) refl
    where
      json : (o : Slot) → value_at key m ≡ o → SlotIsJson o
      json none e = tt
      json (some v) e = IsJson-value_at key m h e
  SlotIsJson-child_slot (some _) key h = tt

  pub SlotIsJson-slot_at : (p : List String) (s : Slot) → SlotIsJson s → SlotIsJson (slot_at p s)
  unfolding slot_at
  SlotIsJson-slot_at [] s h = h
  SlotIsJson-slot_at (k ∷ ks) s h =
      SlotIsJson-slot_at ks (child_slot s k) (SlotIsJson-child_slot s k h)

  -- Equal values have equal members.
  same_slot-child_slot :
      (s t : Slot) (key : String)
      → SlotIsJson s
      → SlotIsJson t
      → same_slot s t ≡ true
      → same_slot (child_slot s key) (child_slot t key) ≡ true
  unfolding same_slot child_slot IsJson deep_equal
  same_slot-child_slot (some (object ks m)) (some (object ks' m')) key h k e =
      (deep_equal_pointwise ks ks' m m' h k).0 e key
  same_slot-child_slot none none key h k e = refl
  same_slot-child_slot (some null) (some null) key h k e = refl
  same_slot-child_slot (some (bool a)) (some (bool b)) key h k e = refl
  same_slot-child_slot (some (number a)) (some (number b)) key h k e = refl
  same_slot-child_slot (some (text a)) (some (text b)) key h k e = refl
  same_slot-child_slot (some (array a)) (some (array b)) key h k e = refl
  same_slot-child_slot _ _ key h k e = cc

  pub same_slot-slot_at :
      (p : List String) (s t : Slot)
      → SlotIsJson s
      → SlotIsJson t
      → same_slot s t ≡ true
      → same_slot (slot_at p s) (slot_at p t) ≡ true
  unfolding slot_at
  same_slot-slot_at [] s t h k e = e
  same_slot-slot_at (key ∷ ks) s t h k e =
      same_slot-slot_at ks (child_slot s key) (child_slot t key) (SlotIsJson-child_slot s key h)
        (SlotIsJson-child_slot t key k) (same_slot-child_slot s t key h k e)

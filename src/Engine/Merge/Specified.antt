-- ===== src/Engine/Merge/Specified.antt =====
-- What a three-way merge is, without its loops: the specification of `mergeSlot`.
use homer_cli.Base.{String, ◌≡◌, ◌↔◌, Bool, true, false, ◌&&◌, none, some, List, [], ◌∷◌}
use homer_cli.Json.Numbers.{FloatParser}
use homer_cli.Json.Equal.{same_slot}
use homer_cli.Engine.Merge.{Slot, MergeConflict, child_slot, is_object, base_allows}

-- Both sides are objects, and the base is one or missing.
abbrev pub both_objects : Slot → Slot → Slot → Bool
both_objects b (some l) (some r) = is_object l && is_object r && base_allows b
both_objects b _ _ = false

abbrev pub holds_object : Slot → Bool
holds_object none = false
holds_object (some v) = is_object v

abbrev pub is_clean : List MergeConflict → Bool
is_clean [] = true
is_clean (c ∷ cs) = false

module _ ⦃fl : FloatParser⦄ where
  -- Both sides changed, and not to the same.
  abbrev pub IsClash : Slot → Slot → Slot → Type 0
  IsClash b l r = (same_slot l b ≡ false) × (same_slot r b ≡ false) × (same_slot l r ≡ false)

  -- `MergesTo b l r m clean`: the merge of l and r on the base b is m, with or without conflicts. A
  -- side that did not change gives way to the other, two equal changes are one, two objects are merged
  -- key by key to one, and any other clash is a conflict that leaves the local side.
  pub data MergesTo : Slot → Slot → Slot → Slot → Bool → Type 0 where
    keep_local : {b l r : Slot} → same_slot r b ≡ true → MergesTo b l r l true
    take_remote :
        {b l r : Slot} → same_slot l b ≡ true → same_slot r b ≡ false → MergesTo b l r r true
    agree : {b l r : Slot} → same_slot l r ≡ true → MergesTo b l r l true
    conflict : {b l r : Slot} → IsClash b l r → both_objects b l r ≡ false → MergesTo b l r l false
    key_by_key :
        {b l r m : Slot} {clean : Bool}
        → IsClash b l r
        → both_objects b l r ≡ true
        → holds_object m ≡ true
        → (clean_at : String → Bool)
        → ((k : String)
            → MergesTo
                (child_slot b k)
                (child_slot l k)
                (child_slot r k)
                (child_slot m k)
                (clean_at k))
        → (clean ≡ true) ↔ ((k : String) → clean_at k ≡ true)
        → MergesTo b l r m clean

-- ===== src/Json/Equal.antt =====
-- `DeepEqual`: equality of JSON values, blind to the order of object members.
use homer_cli.Base.{
  String, ◌≡◌, Bool, true, false, ◌&&◌, Option, none, some, ◌==◌, str_eq, length, List, ap, refl,
}
use homer_cli.Json.{
  Value, null, bool, number, text, array, object, Items, nil, item, Members, end, member, value_at,
  member_keys,
}
use homer_cli.Json.Numbers.{FloatParser, equal_numbers}

abbrev pub bool_eq : Bool → Bool → Bool
bool_eq true b = b
bool_eq false true = false
bool_eq false false = true

abbrev pub matched : Option Value → (Value → Bool) → Bool
matched none f = false
matched (some w) f = f w

module _ ⦃fl : FloatParser⦄ where
  unfoldable mutual
    unfolding value_at member_keys equal_numbers

    pub deep_equal : Value → Value → Bool
    deep_equal null null = true
    deep_equal (bool a) (bool b) = bool_eq a b
    deep_equal (number a) (number b) = equal_numbers a b
    deep_equal (text a) (text b) = str_eq a b
    deep_equal (array xs) (array ys) = equal_items xs ys
    deep_equal (object ks m) (object ks' m') =
        length (member_keys m) == length (member_keys m') && equal_members m m'
    deep_equal _ _ = false

    -- the loop over an array
    pub equal_items : Items → Items → Bool
    equal_items nil nil = true
    equal_items (item v xs) (item w ys) = deep_equal v w && equal_items xs ys
    equal_items _ _ = false

    -- `for key, leftValue := range left.M`
    pub equal_members : Members → Members → Bool
    equal_members end m' = true
    equal_members (member k v m) m' =
        matched (value_at k m') (λ w. deep_equal v w) && equal_members m m'

  -- `sameSlot` of internal/engine/merge.go: `none` is a missing member.
  unfoldable pub same_slot : Option Value → Option Value → Bool
  same_slot none none = true
  same_slot (some v) (some w) = deep_equal v w
  same_slot _ _ = false

  pub deep_equal-object :
      (ks ks' : List String) (m m' : Members)
      → deep_equal (object ks m) (object ks' m')
        ≡ (length (member_keys m) == length (member_keys m') && equal_members m m')
  unfolding deep_equal
  deep_equal-object ks ks' m m' = refl

  matched-deep_equal :
      (o : Option Value) (v : Value) → matched o (λ w. deep_equal v w) ≡ same_slot (some v) o
  unfolding same_slot
  matched-deep_equal none v = refl
  matched-deep_equal (some w) v = refl

  pub equal_members-member :
      (k : String) (v : Value) (m m' : Members)
      → equal_members (member k v m) m' ≡ (same_slot (some v) (value_at k m') && equal_members m m')
  unfolding deep_equal
  equal_members-member k v m m' =
      ap (λ b. b && equal_members m m') (matched-deep_equal (value_at k m') v)

  pub equal_members-end : (m' : Members) → equal_members end m' ≡ true
  unfolding deep_equal
  equal_members-end m' = refl

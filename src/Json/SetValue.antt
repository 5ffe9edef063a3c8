-- ===== src/Json/SetValue.antt =====
-- Lookups and distinct keys after `set_value`.
use homer_cli.Base.{
  String, ◌≡◌, refl, false, some, arith, str_eq, str_eq_iff, if◌then◌else◌, Bool-cases, inl, inr,
}
use homer_cli.Json.{Value, Members, end, member, value_at, set_value}
use homer_cli.Json.Numbers.{FloatParser}
use homer_cli.Json.Keys.{has_key}
use homer_cli.Json.Pointwise.{IsJson, IsMap}

pub value_at-set_value :
    (j k : String) (v : Value) (m : Members)
    → value_at j (set_value k v m) ≡ (if str_eq k j then some v else value_at j m)
unfolding value_at set_value
value_at-set_value j k v end = refl
value_at-set_value j k v (member i w m) =
    ground (arith, value_at-set_value j k v m, str_eq_iff k j, str_eq_iff i k, str_eq_iff i j)

module _ ⦃fl : FloatParser⦄ where
  has_key-set_value :
      (j k : String) (v : Value) (m : Members)
      → str_eq k j ≡ false
      → has_key j m ≡ false
      → has_key j (set_value k v m) ≡ false
  unfolding has_key
  has_key-set_value j k v m d h = ground (arith, value_at-set_value j k v m)

  pub IsMap-set_value :
      (k : String) (v : Value) (m : Members) → IsJson v → IsMap m → IsMap (set_value k v m)
  unfolding IsJson set_value has_key value_at
  IsMap-set_value k v end hv h = (refl, hv, tt)
  IsMap-set_value k v (member j w m) hv h = elim (Bool-cases (str_eq j k)) [
    | inl same ↦ rw same (h.0, hv, h.2)
    | inr other ↦ rw other (
      has_key-set_value j k v m (ground (arith, str_eq_iff j k, str_eq_iff k j)) h.0,
      h.1,
      IsMap-set_value k v m hv h.2,
    )
  ]

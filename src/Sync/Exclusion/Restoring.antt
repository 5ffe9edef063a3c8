-- ===== src/Sync/Exclusion/Restoring.antt =====
-- From the machine to the store and back.
use homer_cli.Base.{
  String, ◌≡◌, refl, Option, none, some, List, arith, if◌then◌else◌, contains, Bool-cases,
  Option-cases, inl, inr,
}
use homer_cli.Json.{Value, text, Object, value_at}
use homer_cli.Json.Rebuild.{either, then_keep, value_at-rebuilt}
use homer_cli.Json.Strip.{as_value}
use homer_cli.Sync.Exclusion.{required_placeholder, with_placeholders, plant_excluded_keys}
use homer_cli.Sync.Exclusion.Planting.{field_at, field_at-plant_excluded_keys}

-- The placeholder for the value of an excluded key.
unfoldable pub hidden : List String → String → Option Value → Option Value
hidden keys k none = none
hidden keys k (some v) = some (if contains k keys then text required_placeholder else v)

pub value_at-with_placeholders :
    (k : String) (keys : List String) (o : Object)
    → value_at k (with_placeholders keys o).members ≡ hidden keys k (value_at k o.members)
unfolding with_placeholders hidden then_keep
value_at-with_placeholders k keys o = elim (Option-cases (value_at k o.members)) [
  | inl e ↦ rw (value_at-rebuilt, e) refl
  | inr (v, e) ↦ rw (value_at-rebuilt, e) refl
]

restored :
    (keys : List String) (j : String) (x : Option Value)
    → (if contains j keys then either x (hidden keys j x) else hidden keys j x) ≡ x
unfolding hidden
restored keys j none = ground arith
restored keys j (some v) = elim (Bool-cases (contains j keys)) [
  | inl c ↦ rw c refl
  | inr c ↦ rw c refl
]

-- For all objects and excluded keys: planting the values of an object into what was made of it for the
-- store, with a placeholder at each excluded key, gives back at every key what the object had there.
-- What is sent to the store has the placeholder at each excluded key that the object has.
pub plant-with_placeholders :
    (keys : List String) (o : Object) (j : String)
    → (field_at j (plant_excluded_keys (as_value (with_placeholders keys o)) (as_value o) keys)
        ≡ field_at j (as_value o))
      × (field_at j (as_value (with_placeholders keys o)) ≡ hidden keys j (field_at j (as_value o)))
unfolding field_at
plant-with_placeholders keys o j = (
  rw
      (
        field_at-plant_excluded_keys j (with_placeholders keys o) o keys,
        value_at-with_placeholders j keys o,
      )
      (restored keys j (value_at j o.members)),
  value_at-with_placeholders j keys o,
)

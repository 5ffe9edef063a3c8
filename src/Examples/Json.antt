-- ===== src/Examples/Json.antt =====
-- Equality of JSON values on documents.
use homer_cli.Base.{String, ◌≡◌, ◌↔◌, refl, true}
use homer_cli.Json.{value_at}
use homer_cli.Json.Numbers.{is_zero, is_nan}
use homer_cli.Json.Equal.{deep_equal, same_slot}
use homer_cli.Json.Pointwise.{IsJson, deep_equal_pointwise}
use homer_cli.Examples.Documents.{
  sample_parser, as_value, base_doc, reordered_doc, base-IsJson, reordered-IsJson,
}

reordered_equal : deep_equal (as_value base_doc) (as_value reordered_doc) ≡ true
unfolding deep_equal is_zero is_nan
reordered_equal = refl

deep_equal_pointwise_example : (deep_equal (as_value base_doc) (as_value reordered_doc) ≡ true) ↔ (
    (k : String)
    → same_slot (value_at k base_doc.members) (value_at k reordered_doc.members) ≡ true)
unfolding IsJson
deep_equal_pointwise_example =
    deep_equal_pointwise base_doc.keys reordered_doc.keys base_doc.members reordered_doc.members
      base-IsJson reordered-IsJson

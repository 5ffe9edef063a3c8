-- ===== src/Examples/Exclusion.antt =====
-- Excluded keys of the sample documents, whose key "a" stays on the machine.
use homer_cli.Base.{
  String, ◌≡◌, ◌↔◌, true, false, Option, some, List, [], ◌∷◌, contains, includes, ◌≢◌,
}
use homer_cli.Json.{Value, Items, nil, item, text, array, value_at}
use homer_cli.Json.Equal.{same_slot}
use homer_cli.Json.Pointwise.{IsJson}
use homer_cli.Json.Strip.{strip_top_keys}
use homer_cli.Engine.Diff.{diff_json}
use homer_cli.Sync.Exclusion.Judgement.{diff_json-strip_top_keys}
use homer_cli.Sync.Exclusion.{
  with_placeholders, plant_excluded_keys, drop_unresolved_placeholders, omit_placeholder_content,
  panics, required_placeholder,
}
use homer_cli.Sync.Exclusion.Planting.{field_at}
use homer_cli.Sync.Exclusion.Restoring.{hidden, plant-with_placeholders}
use homer_cli.Sync.Exclusion.Omission.{
  resolved, drop-plant_excluded_keys, omit_placeholder_content_panics,
}
use homer_cli.Examples.Documents.{
  sample_parser, as_value, base_doc, local_doc, remote_doc, base-IsJson, local-IsJson,
}

abbrev own_keys : List String
own_keys = "a" ∷ []

diff_json-strip_top_keys_example :
    ((diff_json
        (strip_top_keys (as_value base_doc) own_keys)
        (strip_top_keys (as_value local_doc) own_keys)).keys
      ≡ [])
    ↔ ((k : String)
        → contains k own_keys ≡ false
        → same_slot (value_at k base_doc.members) (value_at k local_doc.members) ≡ true)
unfolding IsJson
diff_json-strip_top_keys_example =
    diff_json-strip_top_keys base_doc.keys local_doc.keys own_keys base_doc.members
      local_doc.members base-IsJson local-IsJson

plant-with_placeholders_example :
    (field_at "a" (
        plant_excluded_keys
          (as_value (with_placeholders own_keys local_doc))
          (as_value local_doc)
          own_keys)
      ≡ some (text "x"))
    × (field_at "a" (as_value (with_placeholders own_keys local_doc)) ≡ some (text "__REQUIRED__"))
unfolding field_at value_at hidden contains
plant-with_placeholders_example = plant-with_placeholders own_keys local_doc "a"

drop-plant_excluded_keys_example :
    field_at "a" (
      drop_unresolved_placeholders
        (plant_excluded_keys (as_value remote_doc) (as_value local_doc) own_keys)
        own_keys)
    ≡ some (text "x")
unfolding value_at resolved contains
drop-plant_excluded_keys_example = drop-plant_excluded_keys remote_doc local_doc own_keys "a"

abbrev list_with_placeholder : Value
list_with_placeholder = array (item (text "__REQUIRED__") nil)

abbrev parse_list : String → Option Value
parse_list s = some list_with_placeholder

omit_placeholder_content_panics_example :
    (omit_placeholder_content parse_list (λ v. "") (λ v. "") "[\"__REQUIRED__\"]" own_keys ≡ panics)
    ↔ ((own_keys ≢ [])
        × (includes "[\"__REQUIRED__\"]" required_placeholder ≡ true)
        × ((xs : Items) × (parse_list "[\"__REQUIRED__\"]" ≡ some (array xs))))
omit_placeholder_content_panics_example =
    omit_placeholder_content_panics parse_list (λ v. "") (λ v. "") "[\"__REQUIRED__\"]" own_keys

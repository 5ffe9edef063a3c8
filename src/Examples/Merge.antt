-- ===== src/Examples/Merge.antt =====
-- Merges and diffs of documents.
use homer_cli.Base.{◌≡◌, ◌↔◌, refl, true, none, String, [], ◌∷◌}
use homer_cli.Json.{number, text, height}
use homer_cli.Json.Numbers.{is_zero, is_nan}
use homer_cli.Json.Equal.{deep_equal, same_slot}
use homer_cli.Engine.Merge.{Slot, Merged, merge_json, child_slot, clean, conflicted}
use homer_cli.Engine.Merge.Slots.{slot_at}
use homer_cli.Engine.Merge.Laws.{
  whole, result, merge_json_keeps_local, merge_json_keeps_remote, merge_json_comm,
}
use homer_cli.Engine.Diff.{diff_json}
use homer_cli.Engine.Diff.Exact.{diff_json_exact}
use homer_cli.Examples.Documents.{
  sample_parser, as_value, two_keys, base_doc, local_doc, remote_doc, base-IsJson, local-IsJson,
  remote-IsJson,
}

-- Each side changed another key: both changes are in.
merges_both :
    (result (as_value base_doc) local_doc remote_doc).merged ≡ two_keys (text "x") (text "y")
unfolding merge_json height deep_equal is_zero is_nan
merges_both = refl

merge_is_clean : (result (as_value base_doc) local_doc remote_doc).status ≡ clean
unfolding merge_json height deep_equal is_zero is_nan
merge_is_clean = refl

-- Both sides changed "a": a conflict, and the local value stays.
clash :
    let r = result (as_value base_doc) local_doc (two_keys (text "z") (number "2")) in
    (r.status ≡ conflicted) × (r.merged ≡ local_doc)
unfolding merge_json height deep_equal is_zero is_nan
clash = (refl, refl)

-- A result without fuel that is not the local side.
abbrev nothing_left : String → Slot → Slot → Slot → Merged
nothing_left path b l r = (none, [])

merge_json_keeps_local_example :
    same_slot
      (slot_at ("a" ∷ []) (whole (result (as_value base_doc) local_doc remote_doc).merged))
      (slot_at ("a" ∷ []) (whole local_doc))
    ≡ true
unfolding slot_at same_slot child_slot deep_equal is_zero is_nan
merge_json_keeps_local_example =
    merge_json_keeps_local (as_value base_doc) local_doc remote_doc
      (base-IsJson, local-IsJson, remote-IsJson) ("a" ∷ []) refl

merge_json_keeps_remote_example :
    same_slot
      (slot_at ("b" ∷ []) (whole (result (as_value base_doc) local_doc remote_doc).merged))
      (slot_at ("b" ∷ []) (whole remote_doc))
    ≡ true
unfolding slot_at same_slot child_slot deep_equal is_zero is_nan
merge_json_keeps_remote_example =
    merge_json_keeps_remote (as_value base_doc) local_doc remote_doc
      (base-IsJson, local-IsJson, remote-IsJson) merge_is_clean ("b" ∷ []) refl

merge_json_comm_example :
    ((result (as_value base_doc) remote_doc local_doc).status ≡ clean)
    × (same_slot
          (whole (result (as_value base_doc) local_doc remote_doc).merged)
          (whole (result (as_value base_doc) remote_doc local_doc).merged)
        ≡ true)
merge_json_comm_example =
    merge_json_comm (as_value base_doc) local_doc remote_doc
      (base-IsJson, local-IsJson, remote-IsJson) merge_is_clean

diff_names_the_key : (diff_json (as_value base_doc) (as_value local_doc)).keys ≡ "a" ∷ []
unfolding diff_json height deep_equal is_zero is_nan
diff_names_the_key = refl

diff_json_exact_example :
    ((diff_json (as_value base_doc) (as_value local_doc)).keys ≡ [])
    ↔ (deep_equal (as_value base_doc) (as_value local_doc) ≡ true)
diff_json_exact_example =
    diff_json_exact (as_value base_doc) (as_value local_doc) base-IsJson local-IsJson

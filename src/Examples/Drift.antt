-- ===== src/Examples/Drift.antt =====
-- A report on two machines' files.
use homer_cli.Base.{
  String, Option, ◌≡◌, refl, none, some, List, [], ◌∷◌, str_eq, map, if◌then◌else◌, true, false,
  Bool-cases, inl, inr, sym, ◌∙◌, arith,
}
use homer_cli.Json.{value_at, Value, object, text, end, member, height}
use homer_cli.Json.Numbers.{is_zero, is_nan}
use homer_cli.Json.Equal.{deep_equal}
use homer_cli.Engine.Snapshot.{json, file, SnapshotFiles}
use mathlib.Core.Path.{subst}
use homer_cli.Engine.Drift.{category_drift}
use homer_cli.Json.Pointwise.{IsJson}
use homer_cli.Json.Keys.{has_key}
use homer_cli.Engine.Drift.InStep.{IsInStep, category_drift-IsInStep}
use homer_cli.Engine.Drift.Report.{
  AdapterSnapshot, CategoryDrift, compute_drift, AreAccounted, compute_drift-AreAccounted,
}
use homer_cli.Examples.Documents.{sample_parser}

-- Two texts that parse, to documents with one key.
abbrev parse_sample : String → Option Value
parse_sample s =
    if str_eq s "old"
    then some (object ("k" ∷ []) (member "k" (text "x") end))
    else if str_eq s "new"
    then some (object ("k" ∷ []) (member "k" (text "y") end))
    else none

abbrev snapshot : String → List AdapterSnapshot
snapshot content =
    record {
      adapter_id = "editor";
      categories =
          record {
            category = "settings";
            mode = "merge";
            files = ("settings.json", record { kind = json; content = content }) ∷ [];
          }
          ∷ record {
            category = "themes";
            mode = "mirror";
            files = ("dark.css", record { kind = file; content = content }) ∷ [];
          }
          ∷ [];
    }
    ∷ []

abbrev local_report : List CategoryDrift
local_report = compute_drift parse_sample (snapshot "old") (snapshot "new") none

both_push : map (λ (d : CategoryDrift). d.drift.to_push) local_report ≡ 1 ∷ 1 ∷ []
unfolding compute_drift height deep_equal is_zero is_nan
both_push = refl

compute_drift-AreAccounted_example :
    AreAccounted (compute_drift parse_sample (snapshot "old") (snapshot "new") none)
compute_drift-AreAccounted_example =
    compute_drift-AreAccounted parse_sample (snapshot "old") (snapshot "new") none

parsed-IsJson : (v w : Value) → some w ≡ some v → IsJson w → IsJson v
parsed-IsJson v w e h = subst IsJson (cc) h

parse_sample-IsJson : (s : String) (v : Value) → parse_sample s ≡ some v → IsJson v
unfolding IsJson has_key value_at
parse_sample-IsJson s v e = elim (Bool-cases (str_eq s "old")) [
  | inl old ↦
      parsed-IsJson v (object ("k" ∷ []) (member "k" (text "x") end)) (sym (old_text s old) ∙ e)
        (refl, tt, tt)
  | inr other ↦ elim (Bool-cases (str_eq s "new")) [
    | inl new ↦
        parsed-IsJson v (object ("k" ∷ []) (member "k" (text "y") end))
          (sym (new_text s other new) ∙ e) (refl, tt, tt)
    | inr unknown ↦ ground (arith, e, other, unknown)
  ]
]
  where
    old_text :
        (s : String)
        → str_eq s "old" ≡ true
        → parse_sample s ≡ some (object ("k" ∷ []) (member "k" (text "x") end))
    old_text s old = rw old refl

    new_text :
        (s : String)
        → str_eq s "old" ≡ false
        → str_eq s "new" ≡ true
        → parse_sample s ≡ some (object ("k" ∷ []) (member "k" (text "y") end))
    new_text s other new = rw (other, new) refl

abbrev same_files : SnapshotFiles
same_files = ("settings.json", record { kind = json; content = "old" }) ∷ []

category_drift-IsInStep_example :
    IsInStep (category_drift parse_sample "merge" same_files same_files same_files)
category_drift-IsInStep_example =
    category_drift-IsInStep parse_sample parse_sample-IsJson "merge" same_files

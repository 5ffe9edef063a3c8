-- ===== src/Examples/Resolutions.antt =====
-- Decisions of a machine, in a file that is kept as its list of entries.
use homer_cli.Base.{
  String, ◌≡◌, refl, ap, true, false, not, none, some, List, [], ◌∷◌, str_eq, str_eq_iff,
  Bool-cases, inl, inr, if◌then◌else◌, contains,
}
use mathlib.Core.Path.{subst}
use homer_cli.Base.Dict.{lookup}
use homer_cli.Base.Integers.{pos}
use homer_cli.Resolutions.{
  Entry, Codec, Faults, Home, done, RecordResult, no_faults, create_temporary, valid_choice,
  valid_adapter_id, is_adapter_tail, is_expected, index, in_adapters, still_expected, sort_entries,
  insert_entry, values,
}
use homer_cli.Resolutions.Store.{
  decode_entries, load_file, decode_file, decode_rest, valid_index, take_valid, validate,
  record_choices, remove_if_same, clear,
}
use homer_cli.Resolutions.Index.{last_of}
use homer_cli.Resolutions.Valid.{somes}
use homer_cli.Resolutions.Unique.{dropped}
use homer_cli.Resolutions.Saving.{IsCodec}
use homer_cli.Resolutions.Recording.{decision, record_choices-Holds}
use homer_cli.Resolutions.Removing.{remove_if_same-Holds}
use homer_cli.Resolutions.Failing.{IsRemoved, IsRecorded, all_or_nothing}

data Sample : Type 0 where
  version_one : Sample
  listing : List Entry → Sample
  element : Entry → Sample

elements : List Entry → List Sample
elements [] = []
elements (e ∷ es) = element e ∷ elements es

unfoldable sample_codec : Codec (List Entry) Sample
unfolding elements
sample_codec = record {
  decode_document = λ es. some (("version", version_one) ∷ ("entries", listing es) ∷ []);
  decode_version = λ r. elim r [ version_one ↦ some (pos 1) | _ ↦ none ];
  decode_list = λ r. elim r [ listing es ↦ some (elements es) | _ ↦ none ];
  decode_entry = λ r. elim r [ element e ↦ some e | _ ↦ none ];
  encode_file = λ es. es;
  is_rfc3339 = λ s. not (str_eq s "");
}

decode_entries-elements : (es : List Entry) → decode_entries sample_codec (elements es) ≡ somes es
unfolding elements decode_entries somes sample_codec
decode_entries-elements [] = refl
decode_entries-elements (e ∷ es) = ap (λ os. some e ∷ os) (decode_entries-elements es)

sample-IsCodec : IsCodec sample_codec
unfolding lookup sample_codec
sample-IsCodec = record {
  document = λ es. ("version", version_one) ∷ ("entries", listing es) ∷ [];
  version_data = λ es. version_one;
  entries_data = λ es. listing es;
  raws = elements;
  decoded = λ es. refl;
  has_version = λ es. refl;
  version = λ es. refl;
  has_entries = λ es. refl;
  list_decoded = λ es. refl;
  entries = decode_entries-elements;
}

abbrev old_time : String
old_time = "2026-01-01T00:00:00Z"

abbrev new_time : String
new_time = "2026-02-02T00:00:00Z"

-- One decision, for pi.
abbrev pi_decision : Entry
pi_decision = decision "center" old_time (pos 3) "pi"

abbrev one_decision : Home (List Entry)
one_decision = record {
  file = some (pi_decision ∷ []);
  quarantined = [];
  aside_name = "resolutions.json.corrupt-5";
}

loads_one : load_file sample_codec no_faults one_decision ≡ done (pi_decision ∷ [])
unfolding load_file decode_file decode_rest valid_index take_valid validate decode_entries
    sample_codec sort_entries values lookup valid_choice valid_adapter_id is_adapter_tail elements
    insert_entry
loads_one = refl

all_valid : (a : String) → contains a ("pi" ∷ "codex" ∷ []) ≡ true → valid_adapter_id a ≡ true
unfolding contains valid_adapter_id is_adapter_tail
all_valid a m = elim (Bool-cases (str_eq "pi" a)) [
  | inl e ↦ subst (λ x. valid_adapter_id x ≡ true) ((str_eq_iff "pi" a).0 e) refl
  | inr e ↦ elim (Bool-cases (str_eq "codex" a)) [
    | inl f ↦ subst (λ x. valid_adapter_id x ≡ true) ((str_eq_iff "codex" a).0 f) refl
    | inr f ↦ let q : false ≡ true = rw (e, f) at m in cc
  ]
]

record_choices-Holds_example :
    (after : Home (List Entry)) × (result : RecordResult) × (record_choices sample_codec no_faults
        "local"
        ("pi" ∷ "codex" ∷ [])
        (pos 4)
        new_time
        one_decision
      ≡ (after, done result))
    × ((found : List Entry) × (load_file sample_codec no_faults after ≡ done found)
        × ((a : String)
            → last_of none a found ≡ (
                if contains a ("pi" ∷ "codex" ∷ [])
                then some (decision "local" new_time (pos 4) a)
                else last_of none a (pi_decision ∷ []))))
unfolding valid_choice sample_codec
record_choices-Holds_example =
    record_choices-Holds sample_codec sample-IsCodec "local" new_time (pos 4) ("pi" ∷ "codex" ∷ [])
      one_decision (pi_decision ∷ []) loads_one refl refl refl (λ e. cc) all_valid

remove_if_same-Holds_example :
    (after : Home (List Entry)) × (removed : List Entry) × (remove_if_same sample_codec no_faults
        (pi_decision ∷ [])
        one_decision
      ≡ (after, done removed))
    × ((found : List Entry) × (load_file sample_codec no_faults after ≡ done found)
        × ((a : String)
            → last_of none a found
              ≡ dropped
                  (λ e. is_expected e (last_of none e.adapter (pi_decision ∷ [])))
                  (last_of none a (pi_decision ∷ []))))
remove_if_same-Holds_example =
    remove_if_same-Holds sample_codec sample-IsCodec (pi_decision ∷ []) one_decision
      (pi_decision ∷ []) loads_one

abbrev full_disk : Faults
full_disk = record {
  read = false;
  remove = true;
  quarantine = false;
  write = some create_temporary;
}

all_or_nothing_example :
    IsRemoved sample_codec {A = String}
      ("pi" ∷ [])
      full_disk
      (in_adapters ("pi" ∷ []))
      one_decision
      (clear sample_codec full_disk ("pi" ∷ []) one_decision)
    × IsRemoved sample_codec {A = Entry}
        (pi_decision ∷ [])
        full_disk
        (still_expected (index (pi_decision ∷ [])))
        one_decision
        (remove_if_same sample_codec full_disk (pi_decision ∷ []) one_decision)
    × IsRecorded sample_codec full_disk one_decision
        (record_choices sample_codec full_disk "local" ("pi" ∷ []) (pos 4) new_time one_decision)
all_or_nothing_example =
    all_or_nothing sample_codec full_disk "local" ("pi" ∷ []) (pos 4) new_time (pi_decision ∷ [])
      one_decision

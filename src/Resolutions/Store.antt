-- ===== src/Resolutions/Store.antt =====
-- The operations on the file of decisions.
use homer_cli.Base.{
  String, Bool, true, false, not, Option, none, some, List, [], ◌∷◌, if◌then◌else◌,
}
use homer_cli.Base.Dict.{Dict, lookup, put}
use homer_cli.Base.Integers.{ℤ, pos, is_below_one, int_eq}
use homer_cli.Resolutions.{
  Entry, StoreError, invalid_adapter, invalid_choice, invalid_generation, invalid_time, no_adapters,
  corrupt, unsupported_version, read_failed, remove_failed, quarantine_failed, Attempt, done,
  failed, Codec, Faults, Home, valid_adapter_id, valid_choice, index, index_onto, sort_entries,
  values, RecordResult, unique_adapters, new_entries, replaced_by, taken, remaining, still_expected,
  in_adapters,
}
use homer_cli.Resolutions.Replacing.{write_steps, run_steps}

abbrev pub file_version : ℤ
file_version = pos 1

abbrev pub and_then {ℓ κ} : {A : Type ℓ} {B : Type κ} → Attempt A → (A → Attempt B) → Attempt B
and_then (done a) f = f a
and_then (failed e) f = failed e

abbrev pub or_corrupt {ℓ} : {A : Type ℓ} → Option A → Attempt A
or_corrupt none = failed corrupt
or_corrupt (some a) = done a

-- errors.Is(err, ErrCorrupt)
abbrev pub is_corrupt : StoreError → Bool
is_corrupt corrupt = true
is_corrupt error = false

-- `quarantineCorrupt`, where the rename succeeds: it replaces a file of the same name.
abbrev pub set_aside : {Text : Type 0} → Home Text → Home Text
set_aside h = elim h.file [
  | none ↦ h
  | some t ↦ record h { file = none; quarantined = put h.aside_name t h.quarantined }
]

module _ {Text Raw : Type 0} (c : Codec Text Raw) where
  -- `Entry.Validate`
  unfoldable pub validate : Entry → Option StoreError
  unfolding valid_adapter_id valid_choice
  validate e =
      if not (valid_adapter_id e.adapter)
      then some (invalid_adapter e.adapter)
      else if not (valid_choice e.choice)
      then some (invalid_choice e.choice)
      else if is_below_one e.generation_at_record
      then some invalid_generation
      else if not (c.is_rfc3339 e.recorded_at)
      then some invalid_time
      else none

  -- The first error of a loop that validates each entry.
  unfoldable pub first_error : List Entry → Option StoreError
  unfolding validate
  first_error [] = none
  first_error (e ∷ es) =
      let rest = first_error es in elim (validate e) [ none ↦ rest | some error ↦ some error ]

  -- The entry of one raw element, unless it does not decode or is not valid.
  unfoldable pub take_valid : Dict Entry → Option Entry → Dict Entry
  unfolding validate put
  take_valid d none = d
  take_valid d (some e) = elim (validate e) [ none ↦ put e.adapter e d | some error ↦ d ]

  unfoldable pub valid_index : Dict Entry → List (Option Entry) → Dict Entry
  unfolding take_valid
  valid_index d [] = d
  valid_index d (o ∷ os) = valid_index (take_valid d o) os

  unfoldable pub decode_entries : List Raw → List (Option Entry)
  decode_entries [] = []
  decode_entries (r ∷ rs) = c.decode_entry r ∷ decode_entries rs

  -- The entries of a document whose version is known.
  unfoldable pub decode_rest : Dict Raw → Attempt (List Entry)
  unfolding lookup valid_index decode_entries sort_entries values
  decode_rest document = and_then (or_corrupt (lookup "entries" document)) λ entries_data.
      and_then (or_corrupt (c.decode_list entries_data))
        λ raws. done (sort_entries (values (valid_index [] (decode_entries raws))))

  -- What `loadUnlocked` makes of the text of the file.
  unfoldable pub decode_file : Text → Attempt (List Entry)
  unfolding lookup decode_rest
  decode_file t = and_then (or_corrupt (c.decode_document t)) λ document.
      and_then (or_corrupt (lookup "version" document)) λ version_data.
        and_then (or_corrupt (c.decode_version version_data)) λ version.
          if int_eq version file_version then decode_rest document else failed unsupported_version

  -- `Load`; the version of what it gives is always `file_version`.
  unfoldable pub load_file : Faults → Home Text → Attempt (List Entry)
  unfolding decode_file
  load_file faults h = elim h.file [
    | none ↦ done []
    | some t ↦ if faults.read then failed read_failed else decode_file t
  ]

  -- The end of `saveUnlocked`: no file for no entries, and else a new file in place of the old one.
  unfoldable pub write_entries : Faults → List Entry → Home Text → Home Text × Option StoreError
  unfolding sort_entries run_steps
  write_entries faults [] h = elim h.file [
    | none ↦ (h, none)
    | some t ↦ if faults.remove then (h, some remove_failed) else (record h { file = none }, none)
  ]
  write_entries faults (e ∷ es) h =
      let (w, error) =
        run_steps faults.write (c.encode_file (sort_entries (e ∷ es))) write_steps
          (record { target = h.file; temporary = none }) in
      (record h { file = w.target }, error)

  -- `Save`
  unfoldable pub save_entries : Faults → ℤ → List Entry → Home Text → Home Text × Option StoreError
  unfolding first_error write_entries
  save_entries faults version es h =
      if int_eq version file_version
      then (elim (first_error es) [
        | some error ↦ (h, some error)
        | none ↦ write_entries faults es h
      ])
      else (h, some unsupported_version)

  abbrev pub conclude {ℓ} : {A : Type ℓ} → A → Home Text × Option StoreError → Home Text × Attempt A
  conclude a (h, none) = (h, done a)
  conclude a (h, some error) = (h, failed error)

  -- The end of `Record`, from the entries that the file has.
  unfoldable pub record_onto :
      Faults → List Entry → List Entry → Home Text → Home Text × Attempt RecordResult
  unfolding index index_onto values sort_entries replaced_by save_entries
  record_onto faults new current h =
      conclude (record { recorded = new; replaced = replaced_by (index current) new })
        (save_entries faults file_version (sort_entries (values (index_onto (index current) new)))
          h)

  -- `Record` with entries that are valid: a file that does not decode is set aside.
  unfoldable pub record_entries : Faults → List Entry → Home Text → Home Text × Attempt RecordResult
  unfolding load_file record_onto
  record_entries faults new h = elim (load_file faults h) [
    | done current ↦ record_onto faults new current h
    | failed error ↦
        if not (is_corrupt error)
        then (h, failed error)
        else if faults.quarantine
        then (h, failed quarantine_failed)
        else record_onto faults new [] (set_aside h)
  ]

  -- `Record` from the new entries on, which are all validated first
  unfoldable pub record_new : Faults → List Entry → Home Text → Home Text × Attempt RecordResult
  unfolding first_error record_entries
  record_new faults new h = elim (first_error new) [
    | some error ↦ (h, failed error)
    | none ↦ record_entries faults new h
  ]

  -- `Record` from the loop over the adapters on
  unfoldable pub record_adapters :
      Faults → String → List String → ℤ → String → Home Text → Home Text × Attempt RecordResult
  unfolding unique_adapters new_entries record_new
  record_adapters faults choice adapters generation now h = elim (unique_adapters [] adapters) [
    | failed error ↦ (h, failed error)
    | done unique ↦ record_new faults (new_entries choice now generation unique) h
  ]

  -- `Record` at the time `now`
  unfoldable pub record_choices :
      Faults → String → List String → ℤ → String → Home Text → Home Text × Attempt RecordResult
  unfolding valid_choice record_adapters
  record_choices faults choice adapters generation now h =
      if not (valid_choice choice)
      then (h, failed (invalid_choice choice))
      else if is_below_one generation
      then (h, failed invalid_generation)
      else (elim adapters [
        | [] ↦ (h, failed no_adapters)
        | a ∷ more ↦ record_adapters faults choice (a ∷ more) generation now h
      ])

  -- The end of `Clear` and of `RemoveIfSame`
  unfoldable pub remove_entries :
      Faults → (Entry → Bool) → Home Text → Home Text × Attempt (List Entry)
  unfolding load_file taken remaining save_entries
  remove_entries faults p h = elim (load_file faults h) [
    | failed error ↦ (h, failed error)
    | done current ↦ elim (taken p current) [
      | [] ↦ (h, done [])
      | e ∷ es ↦ conclude (e ∷ es) (save_entries faults file_version (remaining p current) h)
    ]
  ]

  unfoldable pub clear : Faults → List String → Home Text → Home Text × Attempt (List Entry)
  unfolding remove_entries
  clear faults [] h = (h, done [])
  clear faults (a ∷ more) h = remove_entries faults (in_adapters (a ∷ more)) h

  unfoldable pub remove_if_same : Faults → List Entry → Home Text → Home Text × Attempt (List Entry)
  unfolding remove_entries still_expected index
  remove_if_same faults [] h = (h, done [])
  remove_if_same faults (e ∷ es) h = remove_entries faults (still_expected (index (e ∷ es))) h

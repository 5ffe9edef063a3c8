-- ===== src/Resolutions/Saved.antt =====
-- Saving writes the whole file or leaves it.
use homer_cli.Base.{
  ap, ◌≡◌, refl, Option, none, some, List, [], ◌∷◌, Option-cases, Bool-cases, inl, inr,
}
use homer_cli.Base.Integers.{ℤ, int_eq}
use homer_cli.Resolutions.{
  WriteStep, make_directory, create_temporary, change_mode, write_data, sync_data, close_file,
  replace_file, Entry, Codec, Faults, Home, StoreError, sort_entries,
}
use homer_cli.Resolutions.Store.{file_version, save_entries, write_entries, first_error}
use homer_cli.Resolutions.Replacing.{run_steps, perform_step, same_step, write_steps}

module _ {Text Raw : Type 0} (c : Codec Text Raw) where
  -- The home whose file has these entries.
  unfoldable pub stored : List Entry → Home Text → Home Text
  unfolding sort_entries
  stored [] h = record h { file = none }
  stored (e ∷ es) h = record h { file = some (c.encode_file (sort_entries (e ∷ es))) }

  -- All is saved, or nothing is.
  abbrev pub IsSaved : List Entry → Home Text → Home Text × Option StoreError → Type 0
  IsSaved es h (after, none) = after ≡ stored es h
  IsSaved es h (after, some error) = after ≡ h

  -- No call changes the file before the rename, which changes it as a whole.
  run_steps-IsSaved :
      (e : Entry) (es : List Entry) (h : Home Text) (fault : Option WriteStep)
      → IsSaved (e ∷ es) h (
          let (w, error) =
            run_steps fault
              (c.encode_file (sort_entries (e ∷ es)))
              write_steps
              (record { target = h.file; temporary = none }) in
          (record h { file = w.target }, error))
  unfolding run_steps perform_step same_step stored
  run_steps-IsSaved e es h none = refl
  run_steps-IsSaved e es h (some make_directory) = refl
  run_steps-IsSaved e es h (some create_temporary) = refl
  run_steps-IsSaved e es h (some change_mode) = refl
  run_steps-IsSaved e es h (some write_data) = refl
  run_steps-IsSaved e es h (some sync_data) = refl
  run_steps-IsSaved e es h (some close_file) = refl
  run_steps-IsSaved e es h (some replace_file) = refl

  write_entries-IsSaved :
      (faults : Faults) (es : List Entry) (h : Home Text)
      → IsSaved es h (write_entries c faults es h)
  unfolding write_entries stored
  write_entries-IsSaved faults [] h = elim (Option-cases h.file) [
    | inl f ↦ rw (write_entries, f) (ap (λ (o : Option Text). record h { file = o }) f)
    | inr (t, f) ↦ elim (Bool-cases faults.remove) [
      | inl r ↦ rw (write_entries, f, r) (ap (λ (o : Option Text). record h { file = o }) f)
      | inr r ↦ rw (write_entries, f, r) refl
    ]
  ]
  write_entries-IsSaved faults (e ∷ es) h = run_steps-IsSaved e es h faults.write

  pub save_entries-IsSaved :
      (faults : Faults) (version : ℤ) (es : List Entry) (h : Home Text)
      → IsSaved es h (save_entries c faults version es h)
  unfolding save_entries
  save_entries-IsSaved faults version es h = elim (Bool-cases (int_eq version file_version)) [
    | inl v ↦ elim (Option-cases (first_error c es)) [
      | inl f ↦ rw (save_entries, v, f) (write_entries-IsSaved faults es h)
      | inr (error, f) ↦ rw (save_entries, v, f) refl
    ]
    | inr v ↦ rw (save_entries, v) refl
  ]

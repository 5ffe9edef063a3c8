-- ===== src/Resolutions/Replacing.antt =====
-- The calls by which `saveUnlocked` replaces the file. Its deferred function takes the temporary file away
-- where a call fails.
use homer_cli.Base.{ℕ, ◌==◌, Bool, Option, none, some, List, [], ◌∷◌, if◌then◌else◌}
use homer_cli.Resolutions.{
  WriteStep, make_directory, create_temporary, change_mode, write_data, sync_data, close_file,
  replace_file, Writing, StoreError, write_failed,
}

-- The calls by which `saveUnlocked` writes, in their order.
abbrev pub write_steps : List WriteStep
write_steps =
    make_directory ∷ create_temporary ∷ change_mode ∷ write_data ∷ sync_data ∷ close_file
    ∷ replace_file ∷ []

abbrev step_number : WriteStep → ℕ
step_number make_directory = 0
step_number create_temporary = 1
step_number change_mode = 2
step_number write_data = 3
step_number sync_data = 4
step_number close_file = 5
step_number replace_file = 6

unfoldable pub same_step : WriteStep → WriteStep → Bool
same_step a b = step_number a == step_number b

module _ {Text : Type 0} where
  -- What a call does that succeeds; the rename takes the temporary file away.
  unfoldable pub perform_step : Text → WriteStep → Writing Text → Writing Text
  perform_step content create_temporary w = record w { temporary = some none }
  perform_step content write_data w = record w { temporary = some (some content) }
  perform_step content replace_file w = elim w.temporary [
    | some (some t) ↦ record { target = some t; temporary = none }
    | _ ↦ w
  ]
  perform_step content _ w = w

  -- The calls, to the first that fails.
  unfoldable pub run_steps :
      Option WriteStep → Text → List WriteStep → Writing Text → Writing Text × Option StoreError
  unfolding perform_step same_step
  run_steps fault content [] w = (w, none)
  run_steps none content (step ∷ steps) w =
      run_steps none content steps (perform_step content step w)
  run_steps (some fault) content (step ∷ steps) w =
      let rest = run_steps (some fault) content steps (perform_step content step w) in
      if same_step fault step then (w, some (write_failed step)) else rest

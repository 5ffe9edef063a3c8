-- ===== src/Resolutions/Failing.antt =====
-- What an operation leaves when it fails.
use homer_cli.Base.{
  false, String, ◌≡◌, ◌⊎◌, refl, sym, Bool, true, Option, none, some, List, [], ◌∷◌, Option-cases,
  Bool-cases, inl, inr,
}
use mathlib.Core.Path.{subst}
use homer_cli.Base.Integers.{ℤ, is_below_one}
use homer_cli.Resolutions.{
  Entry, Codec, Faults, Home, StoreError, Attempt, done, failed, index, taken, remaining,
  RecordResult, unique_adapters, new_entries, replaced_by, sort_entries, values, index_onto,
  valid_choice, in_adapters, still_expected,
}
use homer_cli.Resolutions.Store.{
  file_version, load_file, save_entries, conclude, first_error, remove_entries, remove_if_same,
  clear, record_choices, record_adapters, record_new, record_entries, record_onto, set_aside,
  is_corrupt,
}
use homer_cli.Resolutions.Removing.{List-cases}
use homer_cli.Resolutions.Saved.{stored, IsSaved, save_entries-IsSaved}

Attempt-cases {ℓ} :
    {A : Type ℓ} (x : Attempt A)
    → ((error : StoreError) × (x ≡ failed error)) ⊎ ((a : A) × (x ≡ done a))
Attempt-cases (done a) = inr (a, refl)
Attempt-cases (failed error) = inl (error, refl)

module _ {Text Raw : Type 0} (c : Codec Text Raw) where
  -- The home after entries are removed, which is not saved if there are none.
  abbrev pub saved_without : List Entry → List Entry → Home Text → Home Text
  saved_without [] remaining h = h
  saved_without (e ∷ es) remaining h = stored c remaining h

  -- What `Clear` and `RemoveIfSame` leave, where they were asked for something or for nothing.
  abbrev pub IsRemoved :
      {A : Type 0}
      → List A
      → Faults
      → (Entry → Bool)
      → Home Text
      → Home Text × Attempt (List Entry)
      → Type 0
  IsRemoved asked faults p h (after, failed error) = after ≡ h
  IsRemoved asked faults p h (after, done removed) =
      ((asked ≡ []) × (removed ≡ []) × (after ≡ h))
      ⊎ ((current : List Entry) × ((load_file c faults h ≡ done current)
            × (removed ≡ taken p current)
            × (after ≡ saved_without removed (remaining p current) h)))

  remove_entries-IsRemoved :
      {A : Type 0} (asked : List A) (faults : Faults) (p : Entry → Bool) (h : Home Text)
      → IsRemoved asked faults p h (remove_entries c faults p h)
  unfolding remove_entries
  remove_entries-IsRemoved asked faults p h = elim (Attempt-cases (load_file c faults h)) [
    | inl (error, l) ↦ rw (remove_entries, l) refl
    | inr (current, l) ↦ elim (List-cases (taken p current)) [
      | inl t ↦ rw (remove_entries, l, t) (inr (current, (l, sym t, refl)))
      | inr (e, es, t) ↦
          rw (remove_entries, l, t)
            (concluded e es current l t (save_entries c faults file_version (remaining p current) h)
              (save_entries-IsSaved c faults file_version (remaining p current) h))
    ]
  ]
    where
      concluded :
          (e : Entry) (es current : List Entry)
          → load_file c faults h ≡ done current
          → taken p current ≡ e ∷ es
          → (x : Home Text × Option StoreError) → IsSaved c (remaining p current) h x
          → IsRemoved asked faults p h (conclude c (e ∷ es) x)
      concluded e es current l t (after, none) k = inr (current, (l, sym t, k))
      concluded e es current l t (after, some error) k = k

  -- The entries of a file to which new ones are recorded.
  unfoldable pub recorded_onto : List Entry → List Entry → List Entry
  recorded_onto current new = sort_entries (values (index_onto (index current) new))

  -- The file does not decode, and can be set aside.
  abbrev pub IsSetAside : Faults → Home Text → Type 0
  IsSetAside faults h =
      ((error : StoreError) × ((load_file c faults h ≡ failed error) × (is_corrupt error ≡ true)))
      × (faults.quarantine ≡ false)

  -- What `Record` leaves.
  abbrev pub IsRecorded : Faults → Home Text → Home Text × Attempt RecordResult → Type 0
  IsRecorded faults h (after, failed error) =
      (after ≡ h) ⊎ (IsSetAside faults h × (after ≡ set_aside h))
  IsRecorded faults h (after, done result) =
      ((current : List Entry) × ((load_file c faults h ≡ done current)
          × (after ≡ stored c (recorded_onto current result.recorded) h)))
      ⊎ (IsSetAside faults h × (after ≡ stored c (recorded_onto [] result.recorded) (set_aside h)))

  record_onto-IsRecorded :
      (faults : Faults) (new current : List Entry) (h : Home Text)
      → load_file c faults h ≡ done current
      → IsRecorded faults h (record_onto c faults new current h)
  unfolding record_onto recorded_onto
  record_onto-IsRecorded faults new current h l =
      concluded (save_entries c faults file_version (recorded_onto current new) h)
        (save_entries-IsSaved c faults file_version (recorded_onto current new) h)
    where
      concluded :
          (x : Home Text × Option StoreError)
          → IsSaved c (recorded_onto current new) h x
          → IsRecorded faults h
              (conclude c (record { recorded = new; replaced = replaced_by (index current) new }) x)
      concluded (after, none) k = inl (current, (l, k))
      concluded (after, some error) k = inl k

  aside-IsRecorded :
      (faults : Faults) (new : List Entry) (h : Home Text)
      → IsSetAside faults h
      → IsRecorded faults h (record_onto c faults new [] (set_aside h))
  unfolding record_onto recorded_onto
  aside-IsRecorded faults new h a =
      concluded (save_entries c faults file_version (recorded_onto [] new) (set_aside h))
        (save_entries-IsSaved c faults file_version (recorded_onto [] new) (set_aside h))
    where
      concluded :
          (x : Home Text × Option StoreError)
          → IsSaved c (recorded_onto [] new) (set_aside h) x
          → IsRecorded faults h
              (conclude c (record { recorded = new; replaced = replaced_by (index []) new }) x)
      concluded (after, none) k = inr (a, k)
      concluded (after, some error) k = inr (a, k)

  record_entries-IsRecorded :
      (faults : Faults) (new : List Entry) (h : Home Text)
      → IsRecorded faults h (record_entries c faults new h)
  unfolding record_entries
  record_entries-IsRecorded faults new h = elim (Attempt-cases (load_file c faults h)) [
    | inr (current, l) ↦ rw (record_entries, l) (record_onto-IsRecorded faults new current h l)
    | inl (error, l) ↦ elim (Bool-cases (is_corrupt error)) [
      | inr d ↦ rw (record_entries, l, d) (inl refl)
      | inl d ↦ elim (Bool-cases faults.quarantine) [
        | inl q ↦ rw (record_entries, l, d, q) (inl refl)
        | inr q ↦
            let run : record_entries c faults new h ≡ record_onto c faults new [] (set_aside h) =
              rw (record_entries, l, d, q) refl in
            subst (IsRecorded faults h) (sym run)
              (aside-IsRecorded faults new h ((error, (l, d)), q))
      ]
    ]
  ]

  record_new-IsRecorded :
      (faults : Faults) (new : List Entry) (h : Home Text)
      → IsRecorded faults h (record_new c faults new h)
  unfolding record_new
  record_new-IsRecorded faults new h = elim (Option-cases (first_error c new)) [
    | inl f ↦ rw (record_new, f) (record_entries-IsRecorded faults new h)
    | inr (error, f) ↦ rw (record_new, f) (inl refl)
  ]

  record_adapters-IsRecorded :
      (faults : Faults) (choice : String) (adapters : List String) (generation : ℤ) (now : String)
      (h : Home Text)
      → IsRecorded faults h (record_adapters c faults choice adapters generation now h)
  unfolding record_adapters
  record_adapters-IsRecorded faults choice adapters generation now h =
      elim (Attempt-cases (unique_adapters [] adapters)) [
        | inl (error, u) ↦ rw (record_adapters, u) (inl refl)
        | inr (unique, u) ↦
            rw (record_adapters, u)
              (record_new-IsRecorded faults (new_entries choice now generation unique) h)
      ]

  record_choices-IsRecorded :
      (faults : Faults) (choice : String) (adapters : List String) (generation : ℤ) (now : String)
      (h : Home Text)
      → IsRecorded faults h (record_choices c faults choice adapters generation now h)
  unfolding record_choices
  record_choices-IsRecorded faults choice adapters generation now h =
      elim (Bool-cases (valid_choice choice)) [
        | inr v ↦ rw (record_choices, v) (inl refl)
        | inl v ↦ elim (Bool-cases (is_below_one generation)) [
          | inl g ↦ rw (record_choices, v, g) (inl refl)
          | inr g ↦ elim (List-cases adapters) [
            | inl e ↦ rw (record_choices, v, g, e) (inl refl)
            | inr (a, more, e) ↦
                rw (record_choices, v, g, e)
                  (record_adapters-IsRecorded faults choice (a ∷ more) generation now h)
          ]
        ]
      ]

  -- Whatever calls of the system fail: where `Clear` and `RemoveIfSame` fail, they leave everything as
  -- it was. Where they succeed, nothing was asked and nothing is changed, or the file could be read,
  -- they give the entries of it that were asked for, and if there are any, the file has the others.
  -- Where `Record` fails, it leaves everything as it was, unless the file did not decode, which is then
  -- set aside. Where it succeeds, the file could be read and has its entries and the recorded ones, or
  -- it did not decode, is set aside, and the new file has the recorded ones.
  pub all_or_nothing :
      (faults : Faults) (choice : String) (adapters : List String) (generation : ℤ) (now : String)
      (consumed : List Entry) (h : Home Text)
      → IsRemoved adapters faults (in_adapters adapters) h (clear c faults adapters h)
        × IsRemoved consumed faults
            (still_expected (index consumed))
            h
            (remove_if_same c faults consumed h)
        × IsRecorded faults h (record_choices c faults choice adapters generation now h)
  unfolding clear remove_if_same
  all_or_nothing faults choice adapters generation now consumed h = (
    cleared adapters,
    removed consumed,
    record_choices-IsRecorded faults choice adapters generation now h,
  )
    where
      cleared :
          (asked : List String)
          → IsRemoved asked faults (in_adapters asked) h (clear c faults asked h)
      cleared [] = inl (refl, refl, refl)
      cleared (a ∷ more) = remove_entries-IsRemoved (a ∷ more) faults _ h

      removed :
          (asked : List Entry)
          → IsRemoved asked faults
              (still_expected (index asked))
              h
              (remove_if_same c faults asked h)
      removed [] = inl (refl, refl, refl)
      removed (e ∷ es) = remove_entries-IsRemoved (e ∷ es) faults _ h

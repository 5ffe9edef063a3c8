-- ===== src/Resolutions/Recording.antt =====
-- What the file has after `Record`.
use homer_cli.Base.{
  either_way, String, ◌≡◌, ◌≢◌, refl, sym, ◌∙◌, ap, true, false, Option, none, some, List, [], ◌∷◌,
  ◌++◌, All, arith, str_eq, str_eq_iff, if◌then◌else◌, Bool-cases, inl, inr, contains, append_new,
  contains-append_new,
}
use homer_cli.Base.Dict.{lookup}
use homer_cli.Base.Integers.{ℤ, is_below_one}
use homer_cli.Resolutions.{
  Entry, Codec, Home, done, no_faults, RecordResult, valid_adapter_id, valid_choice, sort_entries,
  values, index, index_onto, unique_adapters, new_entries, replaced_by,
}
use homer_cli.Resolutions.Store.{
  validate, load_file, record_onto, record_entries, record_choices, record_adapters, record_new,
}
use homer_cli.Resolutions.Index.{
  last_of, lookup-index_onto, last_of-sort_entries, last_of-values, IsIndex, index_onto-IsIndex,
}
use homer_cli.Resolutions.Valid.{
  IsValid, first_error-none, index_onto-All, sort_entries-All, load_file-All,
}
use homer_cli.Resolutions.Saving.{IsCodec, save_entries-Holds}

-- The entry that a decision makes for an adapter.
abbrev pub decision : String → String → ℤ → String → Entry
decision choice now generation a = record {
  adapter = a;
  choice = choice;
  recorded_at = now;
  generation_at_record = generation;
}

unique_adapters-append_new :
    (seen adapters : List String)
    → ((a : String) → contains a adapters ≡ true → valid_adapter_id a ≡ true)
    → unique_adapters seen adapters ≡ done (append_new seen adapters)
unfolding unique_adapters append_new contains
unique_adapters-append_new seen [] h = refl
unique_adapters-append_new seen (a ∷ more) h =
    let later : (b : String) → contains b more ≡ true → valid_adapter_id b ≡ true =
      λ b m. h b (ground (arith, m)) in
    let first : valid_adapter_id a ≡ true = h a (ground (arith, str_eq_iff a a)) in
    elim (Bool-cases (contains a seen)) [
      | inl s ↦ rw (unique_adapters, first, s) (unique_adapters-append_new seen more later)
      | inr s ↦
          rw (unique_adapters, first, s) (unique_adapters-append_new (seen ++ a ∷ []) more later)
    ]

last_of-new_entries :
    (acc : Option Entry) (choice now : String) (generation : ℤ) (us : List String) (a : String)
    → last_of acc a (new_entries choice now generation us)
      ≡ (if contains a us then some (decision choice now generation a) else acc)
unfolding new_entries last_of contains
last_of-new_entries acc choice now generation [] a = refl
last_of-new_entries acc choice now generation (u ∷ us) a =
    last_of-new_entries (if str_eq u a then some (decision choice now generation u) else acc) choice
      now generation us a
    ∙ (elim (Bool-cases (str_eq u a)) [
      | inl e ↦ rw e (
          either_way (contains a us) _ _
            (ap (λ x. some (decision choice now generation x)) ((str_eq_iff u a).0 e)))
      | inr e ↦ rw e refl
    ])

module _ {Text Raw : Type 0} (c : Codec Text Raw) where
  new_entries-All :
      (choice now : String) (generation : ℤ) (us : List String)
      → valid_choice choice ≡ true
      → is_below_one generation ≡ false
      → c.is_rfc3339 now ≡ true
      → ((a : String) → contains a us ≡ true → valid_adapter_id a ≡ true)
      → All (IsValid c) (new_entries choice now generation us)
  unfolding new_entries validate contains
  new_entries-All choice now generation [] v g t h = tt
  new_entries-All choice now generation (u ∷ us) v g t h =
      let first : valid_adapter_id u ≡ true = h u (ground (arith, str_eq_iff u u)) in
      (
        rw (first, v, g, t) refl,
        new_entries-All choice now generation us v g t (λ a m. h a (ground (arith, m))),
      )

module _ {Text Raw : Type 0} (c : Codec Text Raw) (law : IsCodec c) where
  -- What is stored once new valid entries are recorded over those of the file.
  record_onto-Holds :
      (new current : List Entry) (h : Home Text)
      → All (IsValid c) new
      → All (IsValid c) current
      → (after : Home Text) × (result : RecordResult) × (record_onto c no_faults new current h
          ≡ (after, done result))
        × ((found : List Entry) × (load_file c no_faults after ≡ done found)
            × ((a : String) → last_of none a found ≡ last_of (last_of none a current) a new))
  unfolding record_onto index values lookup IsIndex
  record_onto-Holds new current h vn vc =
      let merged = index_onto (index_onto [] current) new in
      let keyed =
        index_onto-IsIndex (index_onto [] current) new (index_onto-IsIndex [] current tt) in
      let valid = sort_entries-All (IsValid c) (values merged) (
        index_onto-All (IsValid c) (index_onto [] current) new
          (index_onto-All (IsValid c) [] current tt vc) vn) in
      let (after, saved, (found, loaded, same)) =
        save_entries-Holds c law (sort_entries (values merged)) h valid in
      (
        after,
        record { recorded = new; replaced = replaced_by (index current) new },
        rw (record_onto, saved) refl,
        (
          found,
          loaded,
          λ a.
              same a
              ∙ last_of-sort_entries none a (values merged)
              ∙ last_of-values a merged keyed
              ∙ lookup-index_onto a (index_onto [] current) new
              ∙ ap (λ x. last_of x a new) (lookup-index_onto a [] current),
        ),
      )

  -- The calls that a recording goes through.
  record_choices-steps :
      (choice now : String) (generation : ℤ) (b : String) (more : List String) (h : Home Text)
      (current : List Entry)
      → load_file c no_faults h ≡ done current
      → valid_choice choice ≡ true
      → is_below_one generation ≡ false
      → ((a : String) → contains a (b ∷ more) ≡ true → valid_adapter_id a ≡ true)
      → All (IsValid c) (new_entries choice now generation (append_new [] (b ∷ more)))
      → record_choices c no_faults choice (b ∷ more) generation now h
        ≡ record_onto c no_faults
            (new_entries choice now generation (append_new [] (b ∷ more)))
            current
            h
  unfolding record_choices record_adapters record_new record_entries
  record_choices-steps choice now generation b more h current l v g valid vn =
      let unique = append_new [] (b ∷ more) in
      let new = new_entries choice now generation unique in
      let checked : record_choices c no_faults choice (b ∷ more) generation now h
          ≡ record_adapters c no_faults choice (b ∷ more) generation now h =
        rw (record_choices, v, g) refl in
      let listed : record_adapters c no_faults choice (b ∷ more) generation now h
          ≡ record_new c no_faults new h =
        rw (record_adapters, unique_adapters-append_new [] (b ∷ more) valid) refl in
      let validated : record_new c no_faults new h ≡ record_entries c no_faults new h =
        rw (record_new, first_error-none c new vn) refl in
      checked ∙ listed ∙ validated ∙ rw (record_entries, l) refl

  -- For a codec that meets its laws and a file that can be read, where no call of the system fails: a
  -- known choice, a generation that is not below 1, a valid time and at least one adapter, all with
  -- valid IDs, are recorded. What the file then has for an adapter is the new decision if the adapter
  -- is among them, and what it had before if not.
  pub record_choices-Holds :
      (choice now : String) (generation : ℤ) (adapters : List String) (h : Home Text)
      (current : List Entry)
      → load_file c no_faults h ≡ done current
      → valid_choice choice ≡ true
      → is_below_one generation ≡ false
      → c.is_rfc3339 now ≡ true
      → adapters ≢ []
      → ((a : String) → contains a adapters ≡ true → valid_adapter_id a ≡ true)
      → (after : Home Text) × (result : RecordResult) × (record_choices c no_faults choice adapters
            generation now h
          ≡ (after, done result))
        × ((found : List Entry) × (load_file c no_faults after ≡ done found)
            × ((a : String)
                → last_of none a found ≡ (
                    if contains a adapters
                    then some (decision choice now generation a)
                    else last_of none a current)))
  unfolding contains
  record_choices-Holds choice now generation [] h current l v g t some_adapter valid =
      absurd (some_adapter refl)
  record_choices-Holds choice now generation (b ∷ more) h current l v g t some_adapter valid =
      let unique = append_new [] (b ∷ more) in
      let in_unique : (a : String) → contains a unique ≡ contains a (b ∷ more) =
        λ a. contains-append_new a [] (b ∷ more) in
      let new = new_entries choice now generation unique in
      let vn =
        new_entries-All c choice now generation unique v g t
          λ a m. valid a (sym (in_unique a) ∙ m) in
      let (after, result, e, (found, loaded, at)) =
        record_onto-Holds new current h vn (load_file-All c no_faults h current l) in
      (
        after,
        result,
        record_choices-steps choice now generation b more h current l v g valid vn ∙ e,
        (
          found,
          loaded,
          λ a.
              at a
              ∙ last_of-new_entries (last_of none a current) choice now generation unique a
              ∙ ap
                  (λ k.
                    if k then some (decision choice now generation a) else last_of none a current)
                  (in_unique a),
        ),
      )
